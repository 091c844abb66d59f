-- ===== src/Platform/Access/Decision.antt =====
-- Who is let in, and with which error the others are turned away.
use dhund_research_ai.Platform.Errors.{DomainError, not_found_in}
use dhund_research_ai.Base.{
  ◌<◌, ◌≤◌, ◌≡◌, ◌↔◌, ◌⊎◌, inl, inr, refl, Bool, true, false, Option, none, some, String, arith,
  eq_iff, Option-cases, ok, err,
}
use dhund_research_ai.Platform.Roles.{
  OrgRole, OrgDataRole, ProjectRole, billing, data_role, viewer, project_rank, org_data_rank,
}
use dhund_research_ai.Platform.Roles.Order.{
  project_role_at_least-text, org_role_at_least-text, org_role_at_least-billing,
}
use dhund_research_ai.Platform.Access.{
  AccessContext, AccessContextOrg, AccessContextProject, LiveProject, WorkerPayload, find_org,
  forbidden_in, find_project, is_billing, is_org_owner, authorize_org, authorize_project,
  assert_scope, project_scope_from, assert_worker_payload_scope,
}

OrgRole-cases : (r : OrgRole) → (r ≡ billing) ⊎ ((d : OrgDataRole) × (r ≡ data_role d))
OrgRole-cases billing = inl refl
OrgRole-cases (data_role d) = inr (d, refl)

-- The role under which a live project lets the caller act, if any: that of the caller's membership
-- if it reaches the minimum, or OWNER for an organisation's owner who breaks the glass.
abbrev pub MayAct :
    (context : AccessContext) (project_id : String) (live : LiveProject) (minimum : ProjectRole)
    (break_glass : Bool) (r : ProjectRole)
    → Type 0
MayAct context project_id live minimum break_glass r =
    ((row : AccessContextProject) × (find_project project_id context ≡ some row)
      × (project_rank minimum ≤ project_rank row.role)
      × (r ≡ row.role))
    ⊎ ((find_project project_id context ≡ none)
        × (break_glass ≡ true)
        × (is_org_owner (find_org live.org_id context) ≡ true)
        × (r ≡ ProjectRole.owner))

module _ (is_uuid : String → Bool) (context : AccessContext) (project_id : String)
    (live : LiveProject) (minimum : ProjectRole) (break_glass : Bool) (source : String) where
  -- The call returns the role exactly when the id is well formed, the caller is not a billing member
  -- of the project's organisation, and the project lets the caller act under that role.
  pub authorize_project_iff :
      (r : ProjectRole)
      → (authorize_project is_uuid context project_id (some live) minimum break_glass source ≡ ok r)
        ↔ ((is_uuid project_id ≡ true)
            × (is_billing (find_org live.org_id context) ≡ false)
            × MayAct context project_id live minimum break_glass r)
  unfolding authorize_project
  authorize_project_iff r = elim (Option-cases (find_project project_id context)) [
    | inl missing ↦ (
      λ h. (ground arith, ground arith, inr (missing, ground arith, ground arith, ground arith)),
      λ h. ground arith,
    )
    | inr (row, found) ↦ (
      λ h. (
        ground arith,
        ground arith,
        inl (
          row,
          found,
          ground (arith, project_role_at_least-text row.role minimum),
          ground (arith, project_role_at_least-text row.role minimum),
        ),
      ),
      λ h. ground (arith, project_role_at_least-text row.role minimum),
    )
  ]

  forbidden-cases :
      (authorize_project is_uuid context project_id (some live) minimum break_glass source
        ≡ err (forbidden_in source))
      ↔ ((is_uuid project_id ≡ true)
          × (is_billing (find_org live.org_id context) ≡ false)
          × (row : AccessContextProject) × (find_project project_id context ≡ some row)
          × (project_rank row.role < project_rank minimum))
  unfolding authorize_project
  forbidden-cases = elim (Option-cases (find_project project_id context)) [
    | inl missing ↦ (λ h. absurd (ground arith), λ h. absurd (ground arith))
    | inr (row, found) ↦ (
      λ h. (
        ground arith,
        ground arith,
        row,
        found,
        ground (arith, project_role_at_least-text row.role minimum),
      ),
      λ h. ground (arith, project_role_at_least-text row.role minimum),
    )
  ]

  refused-cases :
      (e : DomainError)
      → authorize_project is_uuid context project_id (some live) minimum break_glass source ≡ err e
      → (e ≡ forbidden_in source) ⊎ (e ≡ not_found_in source)
  unfolding authorize_project
  refused-cases e = elim (Option-cases (find_project project_id context)) [
    | inl missing ↦ rw missing (λ h. ground arith)
    | inr (row, found) ↦ rw found (λ h. ground arith)
  ]

  -- A caller of a live project is turned away with `forbidden`, and so learns that the project
  -- exists, exactly when the id is well formed and he is a member of the project below the minimum
  -- and not a billing member of its organisation. Everybody else who is turned away gets
  -- `not_found`, which is also the answer for a project that is not there.
  pub forbidden_iff :
      ((authorize_project is_uuid context project_id (some live) minimum break_glass source
          ≡ err (forbidden_in source))
        ↔ ((is_uuid project_id ≡ true)
            × (is_billing (find_org live.org_id context) ≡ false)
            × (row : AccessContextProject) × (find_project project_id context ≡ some row)
            × (project_rank row.role < project_rank minimum)))
      × ((e : DomainError)
          → authorize_project is_uuid context project_id (some live) minimum break_glass source
            ≡ err e
          → (e ≡ forbidden_in source) ⊎ (e ≡ not_found_in source))
      × (authorize_project is_uuid context project_id none minimum break_glass source
          ≡ err (not_found_in source))
  unfolding authorize_project
  forbidden_iff = (forbidden-cases, refused-cases, refl)

-- A scope for project data is given exactly to those whom the project lets view it, if the cached
-- row names the organisation that the live project has.
pub project_scope_from_iff :
    (is_uuid : String → Bool) (context : AccessContext) (project_id : String) (live : LiveProject)
    (source : String)
    → ((row : AccessContextProject)
        → find_project project_id context ≡ some row
        → row.org_id ≡ live.org_id)
    → (project_scope_from is_uuid context project_id source ≡ ok project_id) ↔ (
        (r : ProjectRole) × (authorize_project is_uuid context project_id
            (some live)
            viewer
            false
            source
          ≡ ok r))
unfolding project_scope_from authorize_project
project_scope_from_iff is_uuid context project_id live source same =
    elim (Option-cases (find_project project_id context)) [
      | inl missing ↦ (λ h. absurd (ground arith), λ h. absurd (ground arith))
      | inr (row, found) ↦ (
        λ h. (row.role, ground (arith, same row, project_role_at_least-text row.role viewer)),
        λ h. ground (arith, same row),
      )
    ]

-- An organisation lets in exactly the members whose role is a data role of at least the minimum:
-- never a billing member, and nobody where the organisation is not live.
pub authorize_org_iff :
    (is_uuid : String → Bool) (context : AccessContext) (org_id : String) (live : Bool)
    (minimum : OrgDataRole) (source : String) (row : AccessContextOrg)
    → (authorize_org is_uuid context org_id live minimum source ≡ ok row) ↔ (
        (is_uuid org_id ≡ true)
        × (live ≡ true)
        × (find_org org_id context ≡ some row)
        × (r : OrgDataRole) × (row.role ≡ data_role r)
        × (org_data_rank minimum ≤ org_data_rank r))
unfolding authorize_org
authorize_org_iff is_uuid context org_id live minimum source row =
    elim (Option-cases (find_org org_id context)) [
      | inl missing ↦ (λ h. absurd (ground arith), λ h. absurd (ground arith))
      | inr (found, e) ↦ elim (OrgRole-cases found.role) [
        | inl bills ↦ (
          λ h. absurd (ground (arith, org_role_at_least-billing minimum)),
          λ h. absurd (ground arith),
        )
        | inr (r, is) ↦ (
          λ h. (
            ground arith,
            ground arith,
            ground arith,
            r,
            ground arith,
            ground (arith, org_role_at_least-text r minimum),
          ),
          λ h. ground (arith, org_role_at_least-text r minimum),
        )
      ]
    ]

-- What a worker's payload may name.
abbrev pub InScope : Option String → Option String → AccessContext → Type 0
InScope (some project_id) org_id context =
    (row : AccessContextProject) × (find_project project_id context ≡ some row)
    × ((org_id ≡ none) ⊎ (org_id ≡ some row.org_id))
InScope none (some org_id) context = (row : AccessContextOrg) × (find_org org_id context ≡ some row)
InScope none none context = Unit

assert_scope_iff :
    (project_id org_id : Option String) (context : AccessContext)
    → (assert_scope project_id org_id context ≡ ok tt) ↔ InScope project_id org_id context
unfolding assert_scope
assert_scope_iff none none context = (λ h. tt, λ h. refl)
assert_scope_iff none (some o) context = elim (Option-cases (find_org o context)) [
  | inl missing ↦ (λ h. absurd (ground arith), λ h. absurd (ground arith))
  | inr (row, found) ↦ (λ h. (row, found), λ h. ground arith)
]
assert_scope_iff (some p) none context = elim (Option-cases (find_project p context)) [
  | inl missing ↦ (λ h. absurd (ground arith), λ h. absurd (ground arith))
  | inr (row, found) ↦ (λ h. (row, found, inl refl), λ h. ground arith)
]
assert_scope_iff (some p) (some o) context = elim (Option-cases (find_project p context)) [
  | inl missing ↦ (λ h. absurd (ground arith), λ h. absurd (ground arith))
  | inr (row, found) ↦ (
    λ h. (row, found, inr (ground (arith, eq_iff o row.org_id))),
    λ h. ground (arith, eq_iff o row.org_id),
  )
]

-- A worker's payload passes exactly when the access context holds the project it names, under the
-- organisation it names if it names one; or, with no project, the organisation it names, if any.
pub assert_worker_payload_scope_iff :
    (payload : WorkerPayload) (context : AccessContext)
    → (assert_worker_payload_scope payload context ≡ ok tt)
      ↔ InScope payload.project_id payload.org_id context
unfolding assert_worker_payload_scope
assert_worker_payload_scope_iff payload context =
    assert_scope_iff payload.project_id payload.org_id context
