-- ===== src/Projects/Tenancy.antt =====
-- The tables behind src/l0/adapters/prisma/prisma-tenancy.adapter.ts and what the adapter does on
-- them. Settings are the text of their JSON, dates are clock readings. The unique index
-- `uq_project_membership_active` of the migrations is the test of `insert_project_membership`; ids
-- are taken to be new. Connection and driver errors are left out.
pub mod Authorizer
pub mod Service
pub mod Coherence
pub mod Access
pub mod Invariant
pub mod Changes
pub mod Members
pub mod Created
pub mod Requests
pub mod Kept
pub mod Steps
pub mod Outcomes
mod Tests
pub mod Granted
pub mod RoleChange
pub mod Deleted
use dhund_research_ai.L0.Actions.{modify, Action}
use dhund_research_ai.L0.Actions.{◌>>◌, ◌>>=◌}
use dhund_research_ai.L0.Tables.{update_many, is_null}
use dhund_research_ai.Platform.Access.{AccessContext, AccessContextProject, AccessContextOrg}
use dhund_research_ai.Platform.Roles.{ProjectRole, OrgRole}
use dhund_research_ai.Platform.Errors.{DomainError}
use dhund_research_ai.Base.{
  String, Bool, Result, List, err, Option, ◌++◌, ok, if◌then◌else◌, ℕ, ◌∷◌, any, find, value_or,
  str_eq, some, none, [], ◌&&◌, length, filter, ◌==◌,
}

pub data OrgKind : Type 0 where
  personal team : OrgKind

pub record OrgRow : Type 0 where
  pub id : String
  pub kind : OrgKind
  pub name : String
  pub deleted_at : Option ℕ

pub record OrgMembershipRow : Type 0 where
  pub org_id : String
  pub user_id : String
  pub role : OrgRole
  pub revoked_at : Option ℕ

pub record ProjectRow : Type 0 where
  pub id : String
  pub org_id : String
  pub name : String
  pub settings : String
  pub deleted_at : Option ℕ

pub record ProjectMembershipRow : Type 0 where
  pub id : String
  pub project_id : String
  pub user_id : String
  pub role : ProjectRole
  pub revoked_at : Option ℕ

-- The events and audit entries that the service writes, with the ids that they name.
pub data Entry : Type 0 where
  project_created project_deleted break_glass_used : String → String → Entry
  membership_added membership_role_changed membership_removed : String → String → Entry

pub record Store : Type 0 where
  pub orgs : List OrgRow
  pub org_memberships : List OrgMembershipRow
  pub projects : List ProjectRow
  pub memberships : List ProjectMembershipRow
  -- The cached access contexts, and whether the cache answers.
  pub cache : List AccessContext
  pub cache_up : Bool
  pub outbox : List Entry
  pub audit : List Entry

-- What an operation throws: a DomainError, MembershipConflictError, or another L0OperationError.
pub data ServiceError : Type 0 where
  domain : DomainError → ServiceError
  membership_conflict operation_failed : ServiceError

abbrev pub Tenant : Type 0 → Type 0
Tenant A = Action Store ServiceError A

-- `outbox.withTransaction`: an error undoes what was written, and comes out as an L0OperationError
-- unless it is one.
unfoldable pub wrap : ServiceError → ServiceError
wrap (domain e) = operation_failed
wrap membership_conflict = membership_conflict
wrap operation_failed = operation_failed

abbrev pub append_outbox : Entry → Tenant (Unit {0})
append_outbox entry = modify (λ s. record s { outbox = s.outbox ++ (entry ∷ []) })

-- `audit.append`, which throws an L0OperationError where the audit log does not take the entry.
unfoldable pub append_audit : (Entry → Bool) → Entry → Tenant (Unit {0})
append_audit audits entry s =
    if audits entry
    then (ok tt, record s { audit = s.audit ++ (entry ∷ []) })
    else (err operation_failed, s)

-- `xs.flatMap`, of a function into none or one.
-- `xs.flatMap`, of a function into none or one.
abbrev pub prepend {ℓ} : {A : Type ℓ} → Option A → List A → List A
prepend none xs = xs
prepend (some x) xs = x ∷ xs

unfoldable pub collect {ℓ κ} : {A : Type ℓ} {B : Type κ} → (A → Option B) → List A → List B
collect f [] = []
collect f (x ∷ xs) = prepend (f x) (collect f xs)

unfoldable pub find_live_org : String → Store → Option OrgRow
find_live_org org_id s = find (λ row. str_eq row.id org_id && is_null row.deleted_at) s.orgs

unfoldable pub find_live_project : String → Store → Option ProjectRow
find_live_project project_id s =
    find (λ row. str_eq row.id project_id && is_null row.deleted_at) s.projects

unfoldable pub find_active_org_membership : String → String → Store → Option OrgMembershipRow
find_active_org_membership org_id user_id s =
    find (λ row. str_eq row.org_id org_id && str_eq row.user_id user_id && is_null row.revoked_at)
      s.org_memberships

-- `where: { id, revokedAt: null }`.
abbrev pub is_active_id : String → ProjectMembershipRow → Bool
is_active_id membership_id row = str_eq row.id membership_id && is_null row.revoked_at

unfoldable pub find_project_membership_by_id : String → Store → Option ProjectMembershipRow
find_project_membership_by_id membership_id s = find (is_active_id membership_id) s.memberships

-- An active membership of a user in a project.
abbrev pub is_active_member : String → String → ProjectMembershipRow → Bool
is_active_member project_id user_id row =
    str_eq row.project_id project_id && str_eq row.user_id user_id && is_null row.revoked_at

unfoldable pub find_active_project_membership :
    String → String → Store → Option ProjectMembershipRow
find_active_project_membership project_id user_id s =
    find (is_active_member project_id user_id) s.memberships

unfoldable pub insert_project_membership : ProjectMembershipRow → Tenant (Unit {0})
insert_project_membership row s =
    if any (is_active_member row.project_id row.user_id) s.memberships
    then (err membership_conflict, s)
    else (ok tt, record s { memberships = s.memberships ++ (row ∷ []) })

unfoldable pub insert_project_with_owner : ProjectRow → ProjectMembershipRow → Tenant (Unit {0})
insert_project_with_owner project row = do
  modify (λ s. record s { projects = s.projects ++ (project ∷ []) })
  modify (λ s. record s { memberships = s.memberships ++ (row ∷ []) })

unfoldable pub set_role : ProjectRole → ProjectMembershipRow → ProjectMembershipRow
set_role role row = record row { role = role }

-- The row that `updateProjectMembershipRole` reads back is the first it changed.
unfoldable pub update_project_membership_role :
    String → ProjectRole → Tenant (Option ProjectMembershipRow)
update_project_membership_role membership_id role s =
    let after : Store = record s {
      memberships = update_many (is_active_id membership_id) (set_role role) s.memberships;
    } in
    if any (is_active_id membership_id) s.memberships
    then (ok (find_project_membership_by_id membership_id after), after)
    else (ok none, s)

unfoldable pub set_revoked : ℕ → ProjectMembershipRow → ProjectMembershipRow
set_revoked now row = record row { revoked_at = some now }

-- What follows the lookup of `revokeProjectMembership`.
unfoldable pub revoke_existing :
    ℕ → String → Option ProjectMembershipRow → Tenant (Option ProjectMembershipRow)
revoke_existing now membership_id none s = (ok none, s)
revoke_existing now membership_id (some existing) s = (
  ok (some existing),
  record s {
    memberships = update_many (λ row. str_eq row.id membership_id) (set_revoked now) s.memberships;
  },
)

unfoldable pub revoke_project_membership : ℕ → String → Tenant (Option ProjectMembershipRow)
revoke_project_membership now membership_id s =
    revoke_existing now membership_id (find_project_membership_by_id membership_id s) s

unfoldable pub soft_delete_project : ℕ → String → Tenant Bool
soft_delete_project now project_id s =
    let live : ProjectRow → Bool = λ row. str_eq row.id project_id && is_null row.deleted_at in
    let after : Store = record s {
      projects = update_many live (λ row. record row { deleted_at = some now }) s.projects;
    } in
    (ok (length (filter live s.projects) == 1), after)

-- `listActiveOrgMemberships`, as the access context keeps it: a row whose organization is live.
abbrev pub listed_org : String → Store → OrgMembershipRow → Option AccessContextOrg
listed_org user_id s row =
    if str_eq row.user_id user_id
      && is_null row.revoked_at
      && any (λ org. str_eq org.id row.org_id && is_null org.deleted_at) s.orgs
    then some (record { org_id = row.org_id; role = row.role })
    else none

unfoldable pub list_active_org_memberships : String → Store → List AccessContextOrg
list_active_org_memberships user_id s = collect (listed_org user_id s) s.org_memberships

-- `listActiveProjectMemberships`: a row whose project is live, with the project's organization.
abbrev pub listed_in : ProjectMembershipRow → Option ProjectRow → Option AccessContextProject
listed_in row none = none
listed_in row (some project) =
    some (record { project_id = row.project_id; org_id = project.org_id; role = row.role })

abbrev pub listed_project : String → Store → ProjectMembershipRow → Option AccessContextProject
listed_project user_id s row =
    if str_eq row.user_id user_id && is_null row.revoked_at
    then listed_in row (find_live_project row.project_id s)
    else none

unfoldable pub list_active_project_memberships : String → Store → List AccessContextProject
list_active_project_memberships user_id s = collect (listed_project user_id s) s.memberships

unfoldable pub update_org_name : String → String → Tenant (Option OrgRow)
update_org_name org_id name s =
    let live : OrgRow → Bool = λ row. str_eq row.id org_id && is_null row.deleted_at in
    let after : Store = record s {
      orgs = update_many live (λ row. record row { name = name }) s.orgs;
    } in
    if any live s.orgs then (ok (find_live_org org_id after), after) else (ok none, s)

-- `...(patch.name !== undefined ? { name: patch.name } : {})`, and the same for the settings.
unfoldable pub patched : Option String → Option String → ProjectRow → ProjectRow
patched name settings row = record row {
  name = value_or name row.name;
  settings = value_or settings row.settings;
}

unfoldable pub update_project : String → Option String → Option String → Tenant (Option ProjectRow)
update_project project_id name settings s =
    let live : ProjectRow → Bool = λ row. str_eq row.id project_id && is_null row.deleted_at in
    let after : Store = record s {
      projects = update_many live (patched name settings) s.projects;
    } in
    if any live s.projects then (ok (find_live_project project_id after), after) else (ok none, s)
