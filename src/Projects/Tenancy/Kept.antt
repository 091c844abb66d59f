-- ===== src/Projects/Tenancy/Kept.antt =====
-- Every operation of the service keeps the store sound.
use dhund_research_ai.Projects.Tenancy.Created.{NewIds, created-Sound}
use dhund_research_ai.Projects.Tenancy.Changes.{Sound-memberships}
use dhund_research_ai.L0.Tables.Updates.{any-found}
use dhund_research_ai.Projects.Tenancy.Members.{
  has_id, FewRows, append-FewRows, append-others, without-FewRows, found-with_role, without-others,
  with_role-FewRows, with_role-others,
}
use dhund_research_ai.Platform.Roles.{
  ProjectRole, member, OrgDataRole, editor, viewer, can_assign_project_role, project_role_text,
}
use dhund_research_ai.Projects.Tenancy.Authorizer.{load_project_access, invalidate_access_context}
use dhund_research_ai.Projects.Tenancy.Requests.{
  LeavesSound, require_org-then, require_project-then, update_org_name-Sound, update_project-Sound,
  delete_as-Sound,
}
use dhund_research_ai.Projects.Tenancy.Coherence.{cache_after, resolve-eq, without}
use dhund_research_ai.Projects.Tenancy.Service.{
  grant_membership, get_org, patch_project, patch_org, get_project, delete_project,
  patch_membership, revoke_membership, existing_in, create_project,
}
use dhund_research_ai.Projects.Tenancy.Invariant.{Sound, resolve-Sound, Sound-logged}
use dhund_research_ai.Projects.Tenancy.{
  Store, insert_project_membership, find_live_project, find_active_org_membership, is_active_member,
  ProjectMembershipRow, update_project_membership_role, Entry, revoke_project_membership,
  find_project_membership_by_id, set_role, revoke_existing, set_revoked, is_active_id,
  insert_project_with_owner, append_audit,
}
use dhund_research_ai.Base.{
  String, Bool, Option, ℕ, any, Bool-cases, inr, inl, ◌≡◌, false, Option-cases, List, if◌then◌else◌,
  str_eq, find, refl, true,
}

module _ (is_uuid : String → Bool) (user_id : String) (s : Store) (sound : Sound s) where
  abbrev cached : Store
  cached = record s { cache = cache_after user_id s }

  abbrev still : Sound cached
  still = resolve-Sound user_id s sound

  pub get_org-Sound : (org_id : String) → LeavesSound (get_org is_uuid user_id org_id s)
  unfolding get_org
  get_org-Sound org_id =
      require_org-then is_uuid user_id s sound org_id member _ (λ org membership. still)

  pub patch_org-Sound :
      (org_id name : String) → LeavesSound (patch_org is_uuid user_id org_id name s)
  unfolding patch_org
  patch_org-Sound org_id name =
      require_org-then is_uuid user_id s sound org_id OrgDataRole.admin _
        (λ org membership. update_org_name-Sound cached still org_id name)

  pub get_project-Sound :
      (project_id : String) → LeavesSound (get_project is_uuid user_id project_id s)
  unfolding get_project
  get_project-Sound project_id =
      require_project-then is_uuid user_id s sound project_id viewer _ (λ live role found. still)

  pub patch_project-Sound :
      (project_id : String) (name settings : Option String)
      → LeavesSound (patch_project is_uuid user_id project_id name settings s)
  unfolding patch_project
  patch_project-Sound project_id name settings =
      require_project-then is_uuid user_id s sound project_id editor _
        (λ live role found. update_project-Sound cached still project_id name settings)

  pub delete_project-Sound :
      (audits : Entry → Bool) (now : ℕ) (project_id : String)
      → LeavesSound (delete_project is_uuid audits now user_id project_id s)
  unfolding delete_project load_project_access
  delete_project-Sound audits now project_id = elim (Bool-cases (is_uuid project_id)) [
    | inr bad ↦ rw bad sound
    | inl uuid ↦ elim (Option-cases (find_live_project project_id s)) [
      | inl missing ↦ rw (uuid, missing) sound
      | inr (live, found) ↦
          rw (uuid, found, resolve-eq user_id s)
            (delete_as-Sound cached still audits now user_id live _ _)
    ]
  ]

  abbrev pub seats_of : FewRows s.memberships
  seats_of = (sound.ids, sound.seats)

  -- The rows become `rows`, what is cached for the target is dropped, and the entries are written.
  abbrev pub rewritten : List ProjectMembershipRow → String → List Entry → List Entry → Store
  rewritten rows target outbox audit = record s {
    memberships = rows;
    cache = if s.cache_up then without target (cache_after user_id s) else cache_after user_id s;
    outbox = outbox;
    audit = audit;
  }

  pub rewritten-Sound :
      (rows : List ProjectMembershipRow) (target : String) (outbox audit : List Entry)
      → FewRows rows
      → ((project_id other : String)
          → str_eq other target ≡ false
          → find (is_active_member project_id other) rows
            ≡ find (is_active_member project_id other) s.memberships)
      → Sound (rewritten rows target outbox audit)
  rewritten-Sound rows target outbox audit few same =
      Sound-logged _ outbox audit (Sound-memberships cached still target rows few.0 few.1 same)

  pub grant_membership-Sound :
      (membership_id project_id target_id : String) (role : ProjectRole)
      → any (has_id membership_id) s.memberships ≡ false
      → (audits : Entry → Bool) → ((e : Entry) → audits e ≡ true)
      → LeavesSound
          (grant_membership is_uuid audits membership_id user_id project_id target_id role s)
  unfolding append_audit grant_membership insert_project_membership invalidate_access_context
  grant_membership-Sound membership_id project_id target_id role fresh audits taken_in =
      require_project-then is_uuid user_id s sound project_id ProjectRole.admin _
        (λ live actor found.
          elim (Bool-cases (can_assign_project_role (project_role_text actor) role)) [
            | inr above ↦ rw above still
            | inl may ↦
                elim (Option-cases (find_active_org_membership live.org_id target_id cached)) [
                  | inl stranger ↦ rw (may, stranger) still
                  | inr (seat, there) ↦
                      elim (Bool-cases (any (is_active_member live.id target_id) s.memberships)) [
                        | inl taken ↦ rw (may, there, taken) still
                        | inr free ↦
                            rw (may, there, free, taken_in _)
                              (rewritten-Sound _ target_id _ _
                                (append-FewRows s.memberships _ seats_of fresh free)
                                (append-others s.memberships _))
                      ]
                ]
          ])

  pub patch_membership-Sound :
      (project_id membership_id : String) (role : ProjectRole)
      → (audits : Entry → Bool) → ((e : Entry) → audits e ≡ true)
      → LeavesSound (patch_membership is_uuid audits user_id project_id membership_id role s)
  unfolding append_audit patch_membership existing_in update_project_membership_role
      invalidate_access_context find_project_membership_by_id set_role
  patch_membership-Sound project_id membership_id role audits taken_in =
      require_project-then is_uuid user_id s sound project_id ProjectRole.admin _
        (λ live actor found. elim (Bool-cases (is_uuid membership_id)) [
          | inr bad ↦ rw bad still
          | inl uuid ↦ elim (Bool-cases (can_assign_project_role (project_role_text actor) role)) [
            | inr above ↦ rw (uuid, above) still
            | inl may ↦ elim (Option-cases (find (is_active_id membership_id) s.memberships)) [
              | inl missing ↦ rw (uuid, may, missing) still
              | inr (row, there) ↦ elim (Bool-cases (str_eq row.project_id live.id)) [
                | inr elsewhere ↦ rw (uuid, may, there, elsewhere) still
                | inl here ↦
                    let known = any-found (is_active_id membership_id) s.memberships row there in
                    rw
                      (
                        uuid,
                        may,
                        there,
                        here,
                        known,
                        found-with_role membership_id s.memberships row there role,
                        taken_in _,
                      )
                      (rewritten-Sound _ row.user_id _ _
                        (with_role-FewRows membership_id s.memberships row there role seats_of)
                        (with_role-others membership_id s.memberships row there role seats_of))
              ]
            ]
          ]
        ])

  pub revoke_membership-Sound :
      (now : ℕ) (project_id membership_id : String)
      → (audits : Entry → Bool) → ((e : Entry) → audits e ≡ true)
      → LeavesSound (revoke_membership is_uuid audits now user_id project_id membership_id s)
  unfolding append_audit revoke_membership existing_in revoke_project_membership
      invalidate_access_context find_project_membership_by_id revoke_existing set_revoked
  revoke_membership-Sound now project_id membership_id audits taken_in =
      require_project-then is_uuid user_id s sound project_id ProjectRole.admin _
        (λ live actor found. elim (Bool-cases (is_uuid membership_id)) [
          | inr bad ↦ rw bad still
          | inl uuid ↦ elim (Option-cases (find (is_active_id membership_id) s.memberships)) [
            | inl missing ↦ rw (uuid, missing) still
            | inr (row, there) ↦ elim (Bool-cases (str_eq row.project_id live.id)) [
              | inr elsewhere ↦ rw (uuid, there, elsewhere) still
              | inl here ↦
                  rw (uuid, there, here, there, taken_in _)
                    (rewritten-Sound _ row.user_id _ _
                      (without-FewRows membership_id s.memberships row there now seats_of)
                      (without-others membership_id s.memberships row there now seats_of))
            ]
          ]
        ])

  pub create_project-Sound :
      (project_id membership_id org_id name settings : String)
      → NewIds project_id membership_id s
      → LeavesSound (create_project is_uuid project_id membership_id user_id org_id name settings s)
  unfolding create_project insert_project_with_owner invalidate_access_context
  create_project-Sound project_id membership_id org_id name settings new =
      require_org-then is_uuid user_id s sound org_id OrgDataRole.admin _ (λ org membership.
        Sound-logged _ _ _ (
          created-Sound cached _ _
            (record { project = new.project; members = new.members; membership = new.membership })
            refl still))
