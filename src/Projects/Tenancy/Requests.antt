-- ===== src/Projects/Tenancy/Requests.antt =====
-- Every request keeps the store sound.
use dhund_research_ai.L0.Tables.{is_null}
use dhund_research_ai.Projects.Tenancy.Changes.{Sound-patched, Sound-deleted, Sound-renamed_org}
use dhund_research_ai.Projects.Tenancy.Service.{tombstone_and_enqueue, delete_as}
use dhund_research_ai.Projects.Tenancy.Access.{
  require_project-bad_id, decided, require_project-refuses, no_project, require_project-works,
}
use dhund_research_ai.L0.Actions.{◌>>=◌, ◌>>◌, or_raise}
use dhund_research_ai.Projects.Tenancy.Coherence.{cache_after, seen, resolve-eq}
use dhund_research_ai.Platform.Access.{
  AccessContextOrg, authorize_org, AccessContextProject, is_billing, is_org_owner,
}
use dhund_research_ai.Platform.Roles.{ProjectRole, OrgDataRole, project_role_text}
use dhund_research_ai.Projects.Tenancy.Authorizer.{require_org, require_project, is_some, not_found}
use dhund_research_ai.Projects.Tenancy.Invariant.{
  Sound, resolve-Sound, is_live_project, Sound-logged,
}
use dhund_research_ai.Projects.Tenancy.{
  ServiceError, Store, ProjectRow, Tenant, OrgRow, find_live_project, find_live_org,
  update_org_name, update_project, soft_delete_project, append_audit, Entry, project_deleted,
  break_glass_used,
}
use dhund_research_ai.Base.{
  Result, String, Bool, ◌≡◌, some, Bool-cases, inr, inl, Result-cases, Option-cases, Option, ℕ, any,
  length, filter, ◌==◌, none, str_eq, true, ◌&&◌, false, err, ok, ◌++◌, ◌∷◌, [],
}

-- Where a result leaves the store sound.
abbrev pub LeavesSound : {A : Type 0} → Result ServiceError A × Store → Type 0
LeavesSound outcome = Sound outcome.1

module _ {A : Type 0} (is_uuid : String → Bool) (user_id : String) (s : Store) where
  -- What follows `requireProject` runs on the store with the context cached, for a project that was
  -- found and the role that was decided.
  pub require_project-cases {ℓ} :
      (P : Result ServiceError A × Store → Type ℓ) (project_id : String) (minimum : ProjectRole)
      (next : ProjectRow × ProjectRole → Tenant A)
      → ((e : ServiceError) → P (err e, s))
      → ((e : ServiceError) → P (err e, record s { cache = cache_after user_id s }))
      → ((live : ProjectRow) (role : ProjectRole)
          → is_uuid project_id ≡ true
          → find_live_project project_id s ≡ some live
          → decided is_uuid user_id project_id minimum s ≡ ok role
          → P (next (live, role) (record s { cache = cache_after user_id s })))
      → P ((require_project is_uuid user_id project_id minimum >>= next) s)
  require_project-cases P project_id minimum next early late then =
      elim (Bool-cases (is_uuid project_id)) [
        | inr bad ↦ rw (require_project-bad_id is_uuid user_id project_id minimum s bad) (early _)
        | inl uuid ↦ elim (Result-cases (decided is_uuid user_id project_id minimum s)) [
          | inr (e, refused) ↦
              rw (require_project-refuses is_uuid user_id project_id minimum s e uuid refused)
                (late _)
          | inl (role, allowed) ↦ elim (Option-cases (find_live_project project_id s)) [
            | inl missing ↦
                rw
                  (require_project-refuses is_uuid user_id project_id minimum s _ uuid
                    (no_project is_uuid user_id project_id minimum s missing))
                  (late _)
            | inr (live, found) ↦
                rw
                  (require_project-works is_uuid user_id project_id minimum s live role uuid found
                    allowed)
                  (then live role uuid found allowed)
          ]
        ]
      ]

  pub require_org-cases {ℓ} :
      (P : Result ServiceError A × Store → Type ℓ) (org_id : String) (minimum : OrgDataRole)
      (next : OrgRow × AccessContextOrg → Tenant A)
      → ((e : ServiceError) → P (err e, s))
      → ((e : ServiceError) → P (err e, record s { cache = cache_after user_id s }))
      → ((org : OrgRow) (membership : AccessContextOrg)
          → P (next (org, membership) (record s { cache = cache_after user_id s })))
      → P ((require_org is_uuid user_id org_id minimum >>= next) s)
  unfolding require_org
  require_org-cases P org_id minimum next early late then = elim (Bool-cases (is_uuid org_id)) [
    | inr bad ↦ rw bad (early _)
    | inl uuid ↦
        elim (Result-cases (
          authorize_org is_uuid (seen user_id s) org_id (is_some (find_live_org org_id s)) minimum
            "projects")) [
              | inr (e, refused) ↦ rw (uuid, resolve-eq user_id s, refused) (late _)
              | inl (row, allowed) ↦ elim (Option-cases (find_live_org org_id s)) [
                | inl missing ↦ rw (uuid, resolve-eq user_id s, allowed, missing) (late _)
                | inr (org, found) ↦ rw (uuid, resolve-eq user_id s, allowed, found) (then org row)
              ]
            ]
  ]

  module _ (sound : Sound s) where
    pub require_project-then :
        (project_id : String) (minimum : ProjectRole) (next : ProjectRow × ProjectRole → Tenant A)
        → ((live : ProjectRow) (role : ProjectRole)
            → find_live_project project_id s ≡ some live
            → LeavesSound (next (live, role) (record s { cache = cache_after user_id s })))
        → LeavesSound ((require_project is_uuid user_id project_id minimum >>= next) s)
    require_project-then project_id minimum next then =
        require_project-cases LeavesSound project_id minimum next (λ e. sound)
          (λ e. resolve-Sound user_id s sound)
          (λ live role uuid found allowed. then live role found)

    pub require_org-then :
        (org_id : String) (minimum : OrgDataRole) (next : OrgRow × AccessContextOrg → Tenant A)
        → ((org : OrgRow) (membership : AccessContextOrg)
            → LeavesSound (next (org, membership) (record s { cache = cache_after user_id s })))
        → LeavesSound ((require_org is_uuid user_id org_id minimum >>= next) s)
    require_org-then org_id minimum next then =
        require_org-cases LeavesSound org_id minimum next (λ e. sound)
          (λ e. resolve-Sound user_id s sound) then

or_raise-Sound :
    {A : Type 0} (found : Option A) (e : ServiceError) (s : Store)
    → Sound s
    → LeavesSound (or_raise found e s)
or_raise-Sound none e s sound = sound
or_raise-Sound (some x) e s sound = sound

-- What each operation does to a sound store, after it was let in.
module _ (s : Store) (sound : Sound s) where
  pub update_org_name-Sound :
      (org_id name : String)
      → LeavesSound ((update_org_name org_id name >>= λ org. or_raise org not_found) s)
  unfolding update_org_name
  update_org_name-Sound org_id name =
      elim (Bool-cases (any (λ row. str_eq row.id org_id && is_null row.deleted_at) s.orgs)) [
        | inr miss ↦ rw miss sound
        | inl hit ↦ rw hit (or_raise-Sound _ not_found _ (Sound-renamed_org s sound org_id name))
      ]

  pub update_project-Sound :
      (project_id : String) (name settings : Option String)
      → LeavesSound ((update_project project_id name settings >>= λ row. or_raise row not_found) s)
  unfolding update_project
  update_project-Sound project_id name settings =
      elim (Bool-cases (any (is_live_project project_id) s.projects)) [
        | inr miss ↦ rw miss sound
        | inl hit ↦
            rw hit (or_raise-Sound _ not_found _ (Sound-patched s sound project_id name settings))
      ]

  append_audit-Sound :
      (audits : Entry → Bool) (entry : Entry) (t : Store)
      → Sound t
      → LeavesSound (append_audit audits entry t)
  unfolding append_audit
  append_audit-Sound audits entry t h = elim (Bool-cases (audits entry)) [
    | inl taken ↦ rw taken (Sound-logged t _ _ h)
    | inr refused ↦ rw refused h
  ]

  -- What follows an entry of the audit log, where it is taken.
  append_audit-then :
      (audits : Entry → Bool) (entry : Entry) (t : Store) (next : Tenant (Unit {0}))
      → Sound t
      → LeavesSound (next (record t { audit = t.audit ++ (entry ∷ []) }))
      → LeavesSound ((append_audit audits entry >> next) t)
  unfolding append_audit
  append_audit-then audits entry t next h then = elim (Bool-cases (audits entry)) [
    | inl taken ↦ rw taken then
    | inr refused ↦ rw refused h
  ]

  tombstoned :
      (audits : Entry → Bool) (now : ℕ) (actor_id : String) (project : ProjectRow)
      (break_glass : Bool)
      → (length (filter (is_live_project project.id) s.projects) == 1) ≡ true
      → LeavesSound (tombstone_and_enqueue audits now actor_id project break_glass s)
  unfolding tombstone_and_enqueue soft_delete_project
  tombstoned audits now actor_id project true hit = rw hit (
      append_audit-then audits (project_deleted project.id actor_id) _ _
        (Sound-logged _ _ _ (Sound-deleted s sound now project.id))
        (append_audit-Sound audits (break_glass_used project.id actor_id) _
          (Sound-logged _ _ _ (Sound-deleted s sound now project.id))))
  tombstoned audits now actor_id project false hit = rw hit (
      append_audit-then audits (project_deleted project.id actor_id) _ _
        (Sound-logged _ _ _ (Sound-deleted s sound now project.id))
        (Sound-logged _ _ _ (Sound-deleted s sound now project.id)))

  pub tombstone-Sound :
      (audits : Entry → Bool) (now : ℕ) (actor_id : String) (project : ProjectRow)
      (break_glass : Bool)
      → LeavesSound (tombstone_and_enqueue audits now actor_id project break_glass s)
  unfolding tombstone_and_enqueue soft_delete_project
  tombstone-Sound audits now actor_id project break_glass =
      elim (Bool-cases (length (filter (is_live_project project.id) s.projects) == 1)) [
        | inr miss ↦ rw miss sound
        | inl hit ↦ tombstoned audits now actor_id project break_glass hit
      ]

  pub delete_as-Sound :
      (audits : Entry → Bool) (now : ℕ) (user_id : String) (project : ProjectRow)
      (org : Option AccessContextOrg) (membership : Option AccessContextProject)
      → LeavesSound (delete_as audits now user_id project org membership s)
  unfolding delete_as
  delete_as-Sound audits now user_id project org none = elim (Bool-cases (is_billing org)) [
    | inl bills ↦ rw bills sound
    | inr not ↦ elim (Bool-cases (is_org_owner org)) [
      | inl owns ↦ rw (not, owns) (tombstone-Sound audits now user_id project true)
      | inr other ↦ rw (not, other) sound
    ]
  ]
  delete_as-Sound audits now user_id project org (some membership) =
      elim (Bool-cases (is_billing org)) [
        | inl bills ↦ rw bills sound
        | inr not ↦ elim (Bool-cases (str_eq (project_role_text membership.role) "OWNER")) [
          | inl owns ↦ rw (not, owns) (tombstone-Sound audits now user_id project false)
          | inr other ↦ rw (not, other) sound
        ]
      ]
