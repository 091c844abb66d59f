-- ===== src/Projects/Tenancy/Access.antt =====
-- Whom `requireProject` lets in, by the tables.
use dhund_research_ai.Platform.Access.Decision.{authorize_project_iff, MayAct}
use dhund_research_ai.Platform.Errors.{DomainError, not_found_in}
use dhund_research_ai.Projects.Tenancy.Authorizer.{
  require_project, live_of, not_found, load_from_store,
}
use dhund_research_ai.Platform.Access.{
  authorize_project, is_billing, find_org, find_project, LiveProject,
}
use dhund_research_ai.Projects.Tenancy.Coherence.{
  cache_after, seen, resolve-eq, Coherent, seat, seen-Agrees,
}
use dhund_research_ai.Projects.Tenancy.{
  Store, ProjectRow, find_live_project, domain, ProjectMembershipRow,
  find_active_project_membership,
}
use dhund_research_ai.Platform.Roles.{ProjectRole, project_rank}
use dhund_research_ai.Base.{
  String, Bool, Result, ◌≡◌, false, none, true, ok, err, some, Bool-cases, refl, inr, arith, inl,
  Result-cases, Option-cases, ◌≤◌, ap, ◌↔◌, find, str_eq,
}

-- What the tables say of a user who wants to act in a project with at least a role: the project is
-- live, the user is no billing member of its organization, and the user has an active membership of
-- that role or above. The membership's role is the one under which he acts.
pub record LetsIn (is_uuid : String → Bool) (user_id project_id : String) (minimum : ProjectRole)
    (s : Store) (live : ProjectRow) (role : ProjectRole) : Type 0 where
  pub uuid : is_uuid project_id ≡ true
  pub found : find_live_project project_id s ≡ some live
  pub no_billing : is_billing (find_org live.org_id (load_from_store user_id s)) ≡ false
  pub row : ProjectMembershipRow
  pub active : find_active_project_membership project_id user_id s ≡ some row
  pub reaches : project_rank minimum ≤ project_rank row.role
  pub acts_as : role ≡ row.role

module _ (is_uuid : String → Bool) (user_id project_id : String) (minimum : ProjectRole)
    (s : Store) where
  abbrev pub decided : Result DomainError ProjectRole
  decided =
      authorize_project is_uuid (seen user_id s) project_id
        (live_of (find_live_project project_id s)) minimum false "projects"

  abbrev pub after_resolve : Store
  after_resolve = record s { cache = cache_after user_id s }

  pub require_project-works :
      (live : ProjectRow) (role : ProjectRole)
      → is_uuid project_id ≡ true
      → find_live_project project_id s ≡ some live
      → decided ≡ ok role
      → require_project is_uuid user_id project_id minimum s ≡ (ok (live, role), after_resolve)
  unfolding require_project
  require_project-works live role uuid found allowed =
      rw (uuid, resolve-eq user_id s, allowed, found) refl

  pub require_project-refuses :
      (e : DomainError)
      → is_uuid project_id ≡ true
      → decided ≡ err e
      → require_project is_uuid user_id project_id minimum s ≡ (err (domain e), after_resolve)
  unfolding require_project
  require_project-refuses e uuid refused = rw (uuid, resolve-eq user_id s, refused) refl

  pub no_project : find_live_project project_id s ≡ none → decided ≡ err (not_found_in "projects")
  unfolding authorize_project
  no_project missing = rw missing refl

  pub require_project-bad_id :
      is_uuid project_id ≡ false
      → require_project is_uuid user_id project_id minimum s ≡ (err not_found, s)
  unfolding require_project
  require_project-bad_id bad = rw bad refl

  pub require_project-ok :
      (live : ProjectRow) (role : ProjectRole) (after : Store)
      → require_project is_uuid user_id project_id minimum s ≡ (ok (live, role), after)
      → (is_uuid project_id ≡ true)
        × (find_live_project project_id s ≡ some live)
        × (decided ≡ ok role)
        × (after ≡ after_resolve)
  require_project-ok live role after h = elim (Bool-cases (is_uuid project_id)) [
    | inr bad ↦ absurd (ground (arith, require_project-bad_id bad))
    | inl uuid ↦ elim (Result-cases decided) [
      | inr (e, refused) ↦ absurd (ground (arith, require_project-refuses e uuid refused))
      | inl (r, allowed) ↦ elim (Option-cases (find_live_project project_id s)) [
        | inl missing ↦ absurd (ground (arith, no_project missing))
        | inr (row, found) ↦
            let e = require_project-works row r uuid found allowed in
            (uuid, ground arith, ground arith, ground arith)
      ]
    ]
  ]

  module _ (coherent : Coherent s) (live : ProjectRow)
      (found : find_live_project project_id s ≡ some live) where
    pub seen-seat :
        find_project project_id (seen user_id s)
        ≡ seat live (find_active_project_membership project_id user_id s)
    seen-seat = (seen-Agrees user_id s coherent).projects project_id live found

    pub seen-org :
        find_org live.org_id (seen user_id s) ≡ find_org live.org_id (load_from_store user_id s)
    unfolding load_from_store
    seen-org =
        ap (find (λ row. str_eq row.org_id live.org_id)) (seen-Agrees user_id s coherent).orgs

    -- What `authorizeProject` decides of the context that is seen.
    pub decided_iff :
        (role : ProjectRole)
        → (decided ≡ ok role) ↔ LetsIn is_uuid user_id project_id minimum s live role
    decided_iff role =
        let shape : LiveProject = record { id = live.id; org_id = live.org_id } in
        let (there, back) =
          authorize_project_iff is_uuid (seen user_id s) project_id shape minimum false "projects"
            role in
        let seated = seen-seat in
        let org = seen-org in
        elim (Option-cases (find_active_project_membership project_id user_id s)) [
          | inl outsider ↦ (
            λ h. absurd (ground (arith, there (rw found at h))),
            λ h. absurd (ground (arith, h.active)),
          )
          | inr (row, active) ↦ (
            λ h.
                let (uuid, no_billing, may) = there (rw found at h) in
                record {
                  uuid = uuid;
                  found = found;
                  no_billing = ground arith;
                  row = row;
                  active = active;
                  reaches = ground arith;
                  acts_as = ground arith;
                },
            λ h.
                let may : MayAct (seen user_id s) project_id shape minimum false role = inl (
                  record { project_id = row.project_id; org_id = live.org_id; role = row.role },
                  ground arith,
                  ground (arith, h.active, h.reaches),
                  ground (arith, h.active, h.acts_as),
                ) in
                rw found (back (h.uuid, ground (arith, h.no_billing), may)),
          )
        ]

  -- Whatever contexts are cached, as long as they agree with the tables, a request for a project is
  -- answered by the tables: it is let in, with the live project and a role, exactly when the id is
  -- well formed, the project is live, the user is no billing member of its organization, and the user
  -- has an active membership that reaches the minimum, whose role is then the role that is returned.
  pub require_project_iff :
      Coherent s
      → (live : ProjectRow) (role : ProjectRole)
      → ((after : Store) × (require_project is_uuid user_id project_id minimum s
            ≡ (ok (live, role), after)))
        ↔ LetsIn is_uuid user_id project_id minimum s live role
  require_project_iff coherent live role = (
    λ h.
        let (uuid, found, allowed, _) = require_project-ok live role h.0 h.1 in
        (decided_iff coherent live found role).0 allowed,
    λ h. (
      after_resolve,
      require_project-works live role h.uuid h.found ((decided_iff coherent live h.found role).1 h),
    ),
  )

  -- A user without an active membership is answered as if the project were not there.
  pub no_seat-not_found :
      Coherent s
      → find_active_project_membership project_id user_id s ≡ none
      → (after : Store) × (require_project is_uuid user_id project_id minimum s
          ≡ (err not_found, after))
  unfolding authorize_project
  no_seat-not_found coherent outside = elim (Bool-cases (is_uuid project_id)) [
    | inr bad ↦ (s, require_project-bad_id bad)
    | inl uuid ↦ elim (Option-cases (find_live_project project_id s)) [
      | inl missing ↦ (after_resolve, require_project-refuses _ uuid (no_project missing))
      | inr (live, found) ↦
          let seated = seen-seat coherent live found in
          (after_resolve, require_project-refuses (not_found_in "projects") uuid (ground arith))
    ]
  ]

  -- A project that is not live is not found, by anyone.
  pub not_live-not_found :
      find_live_project project_id s ≡ none
      → (after : Store) × (require_project is_uuid user_id project_id minimum s
          ≡ (err not_found, after))
  not_live-not_found missing = elim (Bool-cases (is_uuid project_id)) [
    | inr bad ↦ (s, require_project-bad_id bad)
    | inl uuid ↦ (after_resolve, require_project-refuses _ uuid (no_project missing))
  ]
