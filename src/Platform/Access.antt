-- ===== src/Platform/Access.antt =====
-- src/platform/authorization/access-context.ts, authorize.ts and worker-payload.ts, and
-- projectScopeFrom of src/platform/persistence/project-scope.ts. `isUuid` is the parameter
-- `is_uuid` of the functions that call it, in place of its regular expression.
pub mod Decision
mod Tests
use dhund_research_ai.Base.{
  ◌≡◌, Bool, true, false, not, ◌&&◌, ◌||◌, Option, none, some, List, String, str_eq, if◌then◌else◌,
  find, Result, ok, err,
}
use dhund_research_ai.Platform.Errors.{DomainError, forbidden, not_found_in}
use dhund_research_ai.Platform.Roles.{
  OrgRole, OrgDataRole, ProjectRole, billing, data_role, org_role_text, project_role_text,
  org_role_at_least, project_role_at_least,
}

pub record AccessContextOrg : Type 0 where
  pub org_id : String
  pub role : OrgRole

pub record AccessContextProject : Type 0 where
  pub project_id : String
  pub org_id : String
  pub role : ProjectRole

pub record AccessContext : Type 0 where
  pub user_id : String
  pub orgs : List AccessContextOrg
  pub projects : List AccessContextProject

-- The fields of a live project that the authorization reads.
pub record LiveProject : Type 0 where
  pub id : String
  pub org_id : String

abbrev pub find_org : String → AccessContext → Option AccessContextOrg
find_org org_id context = find (λ row. str_eq row.org_id org_id) context.orgs

abbrev pub find_project : String → AccessContext → Option AccessContextProject
find_project project_id context = find (λ row. str_eq row.project_id project_id) context.projects

-- `org?.role === 'BILLING'` and `org?.role === 'OWNER'`.
abbrev pub is_billing : Option AccessContextOrg → Bool
is_billing none = false
is_billing (some org) = str_eq (org_role_text org.role) "BILLING"

abbrev pub is_org_owner : Option AccessContextOrg → Bool
is_org_owner none = false
is_org_owner (some org) = str_eq (org_role_text org.role) "OWNER"

abbrev pub forbidden_in : String → DomainError
forbidden_in source = record { code = forbidden; source = source }

module _ (is_uuid : String → Bool) where
  -- `liveOrg` is null when `live` is false; its fields are not read.
  unfoldable pub authorize_org :
      AccessContext
      → String
      → (live : Bool) → OrgDataRole
      → String
      → Result DomainError AccessContextOrg
  authorize_org context org_id live minimum source =
      if not (is_uuid org_id) || not live
      then err (not_found_in source)
      else elim (find_org org_id context) [
        | none ↦ err (not_found_in source)
        | some membership ↦
            if not (org_role_at_least (org_role_text membership.role) minimum)
            then err (forbidden_in source)
            else ok membership
      ]

  -- `membership === undefined`, and the rank test otherwise.
  member_role :
      Option AccessContextOrg
      → Option AccessContextProject
      → ProjectRole
      → Bool
      → String
      → Result DomainError ProjectRole
  member_role org none minimum break_glass source =
      if break_glass && is_org_owner org then ok ProjectRole.owner else err (not_found_in source)
  member_role org (some membership) minimum break_glass source =
      if not (project_role_at_least (project_role_text membership.role) minimum)
      then err (forbidden_in source)
      else ok membership.role

  unfoldable pub authorize_project :
      AccessContext
      → String
      → Option LiveProject
      → ProjectRole
      → Bool
      → String
      → Result DomainError ProjectRole
  unfolding member_role
  authorize_project context project_id none minimum break_glass source = err (not_found_in source)
  authorize_project context project_id (some live) minimum break_glass source =
      if not (is_uuid project_id)
      then err (not_found_in source)
      else if is_billing (find_org live.org_id context)
      then err (not_found_in source)
      else member_role (find_org live.org_id context) (find_project project_id context) minimum
          break_glass source

  unfoldable pub project_scope_from : AccessContext → String → String → Result DomainError String
  project_scope_from context project_id source =
      if not (is_uuid project_id)
      then err (not_found_in source)
      else elim (find_project project_id context) [
        | none ↦ err (not_found_in source)
        | some project ↦
            if is_billing (find_org project.org_id context)
            then err (not_found_in source)
            else ok project_id
      ]

-- The two fields of a worker payload that carry a scope.
pub record WorkerPayload : Type 0 where
  pub org_id : Option String
  pub project_id : Option String

-- `typeof payload.orgId === 'string' && payload.orgId !== project.orgId`.
abbrev org_differs : Option String → String → Bool
org_differs none org_id = false
org_differs (some given) org_id = not (str_eq given org_id)

assert_org : Option String → AccessContext → Result DomainError (Unit {0})
assert_org none context = ok tt
assert_org (some org_id) context = elim (find_org org_id context) [
  | none ↦ err (not_found_in "worker")
  | some org ↦ ok tt
]

assert_scope : Option String → Option String → AccessContext → Result DomainError (Unit {0})
unfolding assert_org
assert_scope none org_id context = assert_org org_id context
assert_scope (some project_id) org_id context = elim (find_project project_id context) [
  | none ↦ err (not_found_in "worker")
  | some project ↦ if org_differs org_id project.org_id then err (not_found_in "worker") else ok tt
]

unfoldable pub assert_worker_payload_scope :
    WorkerPayload → AccessContext → Result DomainError (Unit {0})
unfolding assert_scope
assert_worker_payload_scope payload context = assert_scope payload.project_id payload.org_id context
