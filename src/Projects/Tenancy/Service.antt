-- ===== src/Projects/Tenancy/Service.antt =====
-- src/projects/tenancy.service.ts. The token is verified and the body is parsed before: `user_id` is
-- the subject, and the parsed fields are arguments, as are the ids that are generated and the clock.
-- A response is the row that it is made of.
use dhund_research_ai.Platform.Errors.{already_exists}
use dhund_research_ai.Projects.Tenancy.Authorizer.{
  require_project, load_project_access, require_org, not_found, forbidden,
  invalidate_access_context,
}
use dhund_research_ai.Platform.Access.{
  AccessContextOrg, AccessContextProject, is_billing, is_org_owner,
}
use dhund_research_ai.Platform.Roles.{
  ProjectRole, OrgDataRole, viewer, member, editor, can_assign_project_role, project_role_text,
}
use dhund_research_ai.Projects.Tenancy.{
  ServiceError, ProjectRow, Tenant, domain, ProjectMembershipRow, Store, OrgRow,
  membership_conflict, wrap, update_org_name, operation_failed, update_project, soft_delete_project,
  append_outbox, insert_project_with_owner, project_created, project_deleted,
  find_project_membership_by_id, break_glass_used, update_project_membership_role,
  revoke_project_membership, find_active_org_membership, append_audit, membership_removed,
  insert_project_membership, membership_role_changed, membership_added, Entry,
}
use dhund_research_ai.Base.{
  ℕ, Bool, String, Result, Option, if◌then◌else◌, ok, some, none, err, not, str_eq, true, false,
}
use dhund_research_ai.L0.Actions.{◌>>◌, ◌>>=◌, transaction, require, pure, or_raise, raise, gets}

-- What the service does with the error of the transaction in `grantMembership`.
unfoldable pub already_exists_on_conflict : ServiceError → ServiceError
already_exists_on_conflict (domain e) = domain e
already_exists_on_conflict membership_conflict =
    domain (record { code = already_exists; source = "projects" })
already_exists_on_conflict operation_failed = operation_failed

abbrev pub rethrow :
    {A : Type 0}
    → (ServiceError → ServiceError)
    → Result ServiceError A × Store
    → Result ServiceError A × Store
rethrow f (ok a, s) = (ok a, s)
rethrow f (err e, s) = (err (f e), s)

abbrev pub on_error : {A : Type 0} → (ServiceError → ServiceError) → Tenant A → Tenant A
on_error f work s = rethrow f (work s)

module _ (is_uuid : String → Bool) where
  unfoldable pub get_org : String → String → Tenant OrgRow
  get_org user_id org_id = do
    (org, membership) ← require_org is_uuid user_id org_id member
    pure org

  unfoldable pub patch_org : String → String → String → Tenant OrgRow
  patch_org user_id org_id name = do
    require_org is_uuid user_id org_id OrgDataRole.admin
    org ← update_org_name org_id name
    or_raise org not_found

  unfoldable pub create_project :
      String → String → String → String → String → String → Tenant ProjectRow
  create_project project_id membership_id user_id org_id name settings = do
    (org, membership) ← require_org is_uuid user_id org_id OrgDataRole.admin
    let project : ProjectRow = record {
      id = project_id;
      org_id = org.id;
      name = name;
      settings = settings;
      deleted_at = none;
    }
    transaction wrap (do
      insert_project_with_owner project (record {
        id = membership_id;
        project_id = project_id;
        user_id = user_id;
        role = ProjectRole.owner;
        revoked_at = none;
      })
      append_outbox (project_created project_id user_id))
    invalidate_access_context user_id
    pure project

  unfoldable pub get_project : String → String → Tenant ProjectRow
  get_project user_id project_id = do
    (project, role) ← require_project is_uuid user_id project_id viewer
    pure project

  unfoldable pub patch_project : String → String → Option String → Option String → Tenant ProjectRow
  patch_project user_id project_id name settings = do
    require_project is_uuid user_id project_id editor
    project ← update_project project_id name settings
    or_raise project not_found

-- `if (options.breakGlass === true)`.
abbrev pub when : Bool → Tenant (Unit {0}) → Tenant (Unit {0})
when b work s = if b then work s else (ok tt, s)

unfoldable pub tombstone_and_enqueue :
    (Entry → Bool) → ℕ → String → ProjectRow → Bool → Tenant (Unit {0})
tombstone_and_enqueue audits now actor_id project break_glass = do
  transaction wrap (do
    deleted ← soft_delete_project now project.id
    require deleted not_found
    append_outbox (project_deleted project.id actor_id)
    when break_glass (append_outbox (break_glass_used project.id actor_id)))
  append_audit audits (project_deleted project.id actor_id)
  when break_glass (append_audit audits (break_glass_used project.id actor_id))

-- The branches of `deleteProject` after the access is loaded.
unfoldable pub delete_as :
    (Entry → Bool)
    → ℕ
    → String
    → ProjectRow
    → Option AccessContextOrg
    → Option AccessContextProject
    → Tenant (Unit {0})
delete_as audits now user_id project org none =
    if is_billing org
    then raise not_found
    else if is_org_owner org
    then tombstone_and_enqueue audits now user_id project true
    else raise not_found
delete_as audits now user_id project org (some membership) =
    if is_billing org
    then raise not_found
    else if str_eq (project_role_text membership.role) "OWNER"
    then tombstone_and_enqueue audits now user_id project false
    else raise forbidden

-- `existing === null || existing.projectId !== project.id`.
unfoldable pub existing_in : Option ProjectMembershipRow → String → Option ProjectMembershipRow
existing_in none project_id = none
existing_in (some existing) project_id =
    if not (str_eq existing.project_id project_id) then none else some existing

-- `audits` tells which entries the audit log takes.
module _ (is_uuid : String → Bool) (audits : Entry → Bool) where
  unfoldable pub delete_project : ℕ → String → String → Tenant (Unit {0})
  delete_project now user_id project_id = do
    (project, org, membership) ← load_project_access is_uuid user_id project_id
    delete_as audits now user_id project org membership

  unfoldable pub grant_membership :
      String → String → String → String → ProjectRole → Tenant ProjectMembershipRow
  grant_membership membership_id user_id project_id target_id role = do
    (project, actor) ← require_project is_uuid user_id project_id ProjectRole.admin
    require (can_assign_project_role (project_role_text actor) role) forbidden
    target ← gets (find_active_org_membership project.org_id target_id)
    or_raise target not_found
    let row : ProjectMembershipRow = record {
      id = membership_id;
      project_id = project.id;
      user_id = target_id;
      role = role;
      revoked_at = none;
    }
    on_error already_exists_on_conflict (
        transaction wrap (do
          insert_project_membership row
          append_outbox (membership_added membership_id target_id)))
    append_audit audits (membership_added membership_id target_id)
    invalidate_access_context target_id
    pure row

  unfoldable pub patch_membership :
      String → String → String → ProjectRole → Tenant ProjectMembershipRow
  patch_membership user_id project_id membership_id role = do
    (project, actor) ← require_project is_uuid user_id project_id ProjectRole.admin
    require (is_uuid membership_id) not_found
    require (can_assign_project_role (project_role_text actor) role) forbidden
    found ← gets (find_project_membership_by_id membership_id)
    or_raise (existing_in found project.id) not_found
    changed ← update_project_membership_role membership_id role
    updated ← or_raise changed not_found
    append_audit audits (membership_role_changed membership_id updated.user_id)
    invalidate_access_context updated.user_id
    pure updated

  unfoldable pub revoke_membership : ℕ → String → String → String → Tenant (Unit {0})
  revoke_membership now user_id project_id membership_id = do
    (project, actor) ← require_project is_uuid user_id project_id ProjectRole.admin
    require (is_uuid membership_id) not_found
    found ← gets (find_project_membership_by_id membership_id)
    existing ← or_raise (existing_in found project.id) not_found
    transaction wrap (do
      revoked ← revoke_project_membership now membership_id
      row ← or_raise revoked not_found
      append_outbox (membership_removed membership_id row.user_id))
    append_audit audits (membership_removed membership_id existing.user_id)
    invalidate_access_context existing.user_id
