-- ===== src/Projects/Tenancy/Outcomes.antt =====
-- What the operations on memberships and projects have done when they succeed.
use dhund_research_ai.Projects.Tenancy.Members.{
  has_id, without-others, without-FewRows, without-none,
}
use dhund_research_ai.L0.Tables.{update_many}
use dhund_research_ai.Projects.Tenancy.Kept.{rewritten, seats_of, rewritten-Sound}
use dhund_research_ai.Projects.Tenancy.Requests.{require_project-cases}
use dhund_research_ai.L0.Tables.Updates.{find-some}
use dhund_research_ai.Projects.Tenancy.Authorizer.{
  invalidate_access_context, require_project, not_found,
}
use dhund_research_ai.Projects.Tenancy.Access.{LetsIn, decided, decided_iff, no_seat-not_found}
use dhund_research_ai.Platform.Roles.{ProjectRole}
use dhund_research_ai.Projects.Tenancy.Service.{revoke_membership, existing_in}
use dhund_research_ai.Projects.Tenancy.Coherence.{cache_after}
use dhund_research_ai.Projects.Tenancy.Invariant.{Sound, is_live_project}
use dhund_research_ai.Projects.Tenancy.{
  Store, ProjectRow, find_live_project, ProjectMembershipRow, revoke_project_membership,
  find_project_membership_by_id, revoke_existing, find_active_project_membership, is_active_id,
  Entry, set_revoked, is_active_member, append_audit, membership_removed,
}
use dhund_research_ai.Base.{
  String, Bool, ◌≡◌, some, eq_iff, arith, ok, err, ℕ, str_eq, false, Bool-cases, inr, inl,
  Option-cases, find, ap, List, subst, true, ◌∙◌, none,
}

module _ (is_uuid : String → Bool) (user_id : String) (s : Store) (sound : Sound s) where
  abbrev cached : Store
  cached = record s { cache = cache_after user_id s }

  -- Who was let in, by the tables.
  pub let_in :
      (project_id : String) (minimum : ProjectRole) (live : ProjectRow) (role : ProjectRole)
      → find_live_project project_id s ≡ some live
      → decided is_uuid user_id project_id minimum s ≡ ok role
      → LetsIn is_uuid user_id project_id minimum s live role
  let_in project_id minimum live role found allowed =
      (decided_iff is_uuid user_id project_id minimum s sound.coherent live found role).0 allowed

  pub live-id :
      (project_id : String) (live : ProjectRow)
      → find_live_project project_id s ≡ some live
      → live.id ≡ project_id
  unfolding find_live_project
  live-id project_id live found =
      (eq_iff live.id project_id).0
        (ground (arith, find-some (is_live_project project_id) s.projects live found))

  -- What a revocation that succeeds has done: an administrator of the project took an active
  -- membership of it away from its user, and from nobody else.
  pub record Revoked (project_id membership_id : String) (after : Store) : Type 0 where
    pub live : ProjectRow
    pub actor : ProjectRole
    pub by_admin : LetsIn is_uuid user_id project_id ProjectRole.admin s live actor
    pub row : ProjectMembershipRow
    pub was_active : find_project_membership_by_id membership_id s ≡ some row
    pub of_project : row.project_id ≡ project_id
    pub locked_out :
        (minimum : ProjectRole)
        → (later : Store) × (require_project is_uuid row.user_id project_id minimum after
            ≡ (err not_found, later))
    pub others :
        (project other : String)
        → str_eq other row.user_id ≡ false
        → find_active_project_membership project other after
          ≡ find_active_project_membership project other s

  revoked :
      (now : ℕ) (project_id membership_id : String) (live : ProjectRow) (actor : ProjectRole)
      (row : ProjectMembershipRow) (outbox audit : List Entry)
      → find_live_project project_id s ≡ some live
      → LetsIn is_uuid user_id project_id ProjectRole.admin s live actor
      → find (is_active_id membership_id) s.memberships ≡ some row
      → str_eq row.project_id live.id ≡ true
      → Revoked project_id membership_id (
          rewritten is_uuid user_id s sound
            (update_many (has_id membership_id) (set_revoked now) s.memberships)
            row.user_id
            outbox
            audit)
  unfolding find_project_membership_by_id find_active_project_membership
  revoked now project_id membership_id live actor row outbox audit found by_admin there here =
      let rows = s.memberships in
      let few = seats_of is_uuid user_id s sound in
      let kept = without-others membership_id rows row there now few in
      let sound_after =
        rewritten-Sound is_uuid user_id s sound _ row.user_id outbox audit
          (without-FewRows membership_id rows row there now few) kept in
      let of_project : row.project_id ≡ project_id =
        (eq_iff row.project_id live.id).0 here ∙ live-id project_id live found in
      record {
        live = live;
        actor = actor;
        by_admin = by_admin;
        row = row;
        was_active = there;
        of_project = of_project;
        locked_out = λ minimum.
            no_seat-not_found is_uuid row.user_id project_id minimum _ sound_after.coherent (
              subst
                (λ id.
                  find (is_active_member id row.user_id)
                    (update_many (has_id membership_id) (set_revoked now) rows)
                  ≡ none)
                of_project (without-none membership_id rows row there now few));
        others = λ project other. kept project other;
      }

  -- On a sound store, a revocation that succeeds was made by a user who is an administrator of the live
  -- project or more, and took an active membership of that project. Its user is then answered
  -- `not_found` for the project, whatever he asks for and whatever was cached, and the memberships of
  -- all others are as they were.
  pub revoke_membership-Revoked :
      (audits : Entry → Bool) (now : ℕ) (project_id membership_id : String) (after : Store)
      → revoke_membership is_uuid audits now user_id project_id membership_id s ≡ (ok tt, after)
      → Revoked project_id membership_id after
  unfolding append_audit revoke_membership existing_in revoke_project_membership
      invalidate_access_context find_project_membership_by_id revoke_existing
      find_active_project_membership
  revoke_membership-Revoked audits now project_id membership_id after =
      require_project-cases is_uuid user_id s
        (λ outcome. outcome ≡ (ok tt, after) → Revoked project_id membership_id after) project_id
        ProjectRole.admin _ (λ e h. absurd (ground arith)) (λ e h. absurd (ground arith))
        (λ live actor uuid found allowed. elim (Bool-cases (is_uuid membership_id)) [
          | inr bad ↦ rw bad (λ h. absurd (ground arith))
          | inl good ↦ elim (Option-cases (find (is_active_id membership_id) s.memberships)) [
            | inl missing ↦ rw (good, missing) (λ h. absurd (ground arith))
            | inr (row, there) ↦ elim (Bool-cases (str_eq row.project_id live.id)) [
              | inr elsewhere ↦ rw (good, there, elsewhere) (λ h. absurd (ground arith))
              | inl here ↦
                  elim (Bool-cases (audits (membership_removed membership_id row.user_id))) [
                    | inr refused ↦
                        rw (good, there, here, there, refused) (λ h. absurd (ground arith))
                    | inl taken ↦
                        rw (good, there, here, there, taken)
                          (λ h. subst (Revoked project_id membership_id) (ap (λ x. x.1) h) (
                            revoked now project_id membership_id live actor row _ _ found
                              (let_in project_id ProjectRole.admin live actor found allowed) there
                              here))
                  ]
            ]
          ]
        ])
