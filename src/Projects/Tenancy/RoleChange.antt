-- ===== src/Projects/Tenancy/RoleChange.antt =====
-- What a change of a membership's role has done when it succeeds.
use dhund_research_ai.Projects.Tenancy.Access.{LetsIn}
use dhund_research_ai.Projects.Tenancy.Invariant.{Sound}
use dhund_research_ai.Platform.Roles.{ProjectRole, project_rank}
use dhund_research_ai.Projects.Tenancy.{
  set_role, Store, ProjectMembershipRow, ProjectRow, find_project_membership_by_id,
  find_active_project_membership,
}
use dhund_research_ai.Base.{String, Bool, ◌≤◌, ◌≡◌, some, str_eq, false}

module _ (is_uuid : String → Bool) (user_id : String) (s : Store) (sound : Sound s) where
  -- What a change that succeeds has done: an administrator of the project gave one of its members a
  -- role no higher than his own, and nobody else another.
  pub record Repositioned (project_id membership_id : String) (role : ProjectRole)
      (updated : ProjectMembershipRow) (after : Store) : Type 0 where
    pub live : ProjectRow
    pub actor : ProjectRole
    pub by_admin : LetsIn is_uuid user_id project_id ProjectRole.admin s live actor
    pub not_above : project_rank role ≤ project_rank actor
    pub row : ProjectMembershipRow
    pub was_active : find_project_membership_by_id membership_id s ≡ some row
    pub of_project : row.project_id ≡ project_id
    pub is_updated : updated ≡ set_role role row
    pub has_row : find_active_project_membership project_id row.user_id after ≡ some updated
    pub others :
        (project other : String)
        → str_eq other row.user_id ≡ false
        → find_active_project_membership project other after
          ≡ find_active_project_membership project other s
