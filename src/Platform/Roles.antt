-- ===== src/Platform/Roles.antt =====
-- src/platform/authorization/roles.ts. The two tests take the caller's role as a string, as the code
-- does; `none` is a string that names no role.
pub mod Order
mod Tests
use dhund_research_ai.Base.{ℕ, Bool, false, Option, none, some, String, leb, str_eq, if◌then◌else◌}

pub data ProjectRole : Type 0 where
  viewer editor admin owner : ProjectRole

pub data OrgDataRole : Type 0 where
  member admin owner : OrgDataRole

pub data OrgRole : Type 0 where
  billing : OrgRole
  data_role : OrgDataRole → OrgRole

abbrev pub project_role_text : ProjectRole → String
project_role_text viewer = "VIEWER"
project_role_text editor = "EDITOR"
project_role_text admin = "ADMIN"
project_role_text owner = "OWNER"

abbrev pub org_data_role_text : OrgDataRole → String
org_data_role_text member = "MEMBER"
org_data_role_text admin = "ADMIN"
org_data_role_text owner = "OWNER"

abbrev pub org_role_text : OrgRole → String
org_role_text billing = "BILLING"
org_role_text (data_role r) = org_data_role_text r

abbrev pub project_rank : ProjectRole → ℕ
project_rank viewer = 0
project_rank editor = 1
project_rank admin = 2
project_rank owner = 3

abbrev pub org_data_rank : OrgDataRole → ℕ
org_data_rank member = 0
org_data_rank admin = 1
org_data_rank owner = 2

-- `isProjectRole`, with the role that the string names.
unfoldable pub as_project_role : String → Option ProjectRole
as_project_role value =
    if str_eq value "VIEWER"
    then some viewer
    else if str_eq value "EDITOR"
    then some editor
    else if str_eq value "ADMIN"
    then some admin
    else if str_eq value "OWNER"
    then some owner
    else none

-- `isOrgDataRole`, with the role that the string names.
unfoldable pub as_org_data_role : String → Option OrgDataRole
as_org_data_role value =
    if str_eq value "MEMBER"
    then some member
    else if str_eq value "ADMIN"
    then some admin
    else if str_eq value "OWNER"
    then some owner
    else none

unfoldable pub project_role_at_least : String → ProjectRole → Bool
project_role_at_least actual minimum = elim (as_project_role actual) [
  | none ↦ false
  | some role ↦ leb (project_rank minimum) (project_rank role)
]

unfoldable pub org_role_at_least : String → OrgDataRole → Bool
org_role_at_least actual minimum =
    if str_eq actual "BILLING" then false else elim (as_org_data_role actual) [
      | none ↦ false
      | some role ↦ leb (org_data_rank minimum) (org_data_rank role)
    ]

unfoldable pub can_assign_project_role : String → ProjectRole → Bool
unfolding project_role_at_least
can_assign_project_role caller_role granted_role = project_role_at_least caller_role granted_role
