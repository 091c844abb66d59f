-- ===== src/Projects/Tenancy/Authorizer.antt =====
-- src/projects/authorization/tenancy-authorizer.ts, src/iam/authorization/access-context.service.ts
-- and src/l0/adapters/redis/redis-access-context-invalidator.ts. `userId` is the subject of the
-- verified token. The cache holds a context as it was written; one that is not read, because it has
-- expired or the cache does not answer, is a miss.
use dhund_research_ai.Platform.Errors.{not_found_in}
use dhund_research_ai.Platform.Roles.{OrgDataRole, ProjectRole}
use dhund_research_ai.Platform.Access.{
  AccessContext, AccessContextOrg, LiveProject, forbidden_in, AccessContextProject, authorize_org,
  authorize_project, find_org, find_project,
}
use dhund_research_ai.Base.{
  String, Option, Bool, false, some, if◌then◌else◌, ok, find, true, none, ◌∷◌, filter, str_eq, not,
}
use dhund_research_ai.Projects.Tenancy.{
  ServiceError, Store, ProjectRow, Tenant, domain, list_active_org_memberships, OrgRow,
  list_active_project_memberships, find_live_org, find_live_project,
}
use dhund_research_ai.L0.Actions.{◌>>◌, ◌>>=◌, require, gets, of_result, or_raise, pure, modify}

unfoldable pub invalidate_access_context : String → Tenant (Unit {0})
invalidate_access_context user_id = modify (λ s. record s {
  cache =
      if s.cache_up
      then filter (λ context. not (str_eq context.user_id user_id)) s.cache
      else s.cache;
})

unfoldable pub load_from_store : String → Store → AccessContext
load_from_store user_id s = record {
  user_id = user_id;
  orgs = list_active_org_memberships user_id s;
  projects = list_active_project_memberships user_id s;
}

unfoldable pub read_cache : String → Store → Option AccessContext
read_cache user_id s =
    if s.cache_up then find (λ context. str_eq context.user_id user_id) s.cache else none

unfoldable pub write_cache : AccessContext → Store → Store
write_cache context s = record s { cache = if s.cache_up then context ∷ s.cache else s.cache }

-- What follows the lookup in the cache.
unfoldable pub resolve_from : Option AccessContext → String → Tenant AccessContext
resolve_from (some cached) user_id s = (ok cached, s)
resolve_from none user_id s =
    (ok (load_from_store user_id s), write_cache (load_from_store user_id s) s)

unfoldable pub resolve : String → Tenant AccessContext
resolve user_id s = resolve_from (read_cache user_id s) user_id s

abbrev pub not_found : ServiceError
not_found = domain (not_found_in "projects")

abbrev pub forbidden : ServiceError
forbidden = domain (forbidden_in "projects")

abbrev pub live_of : Option ProjectRow → Option LiveProject
live_of none = none
live_of (some project) = some (record { id = project.id; org_id = project.org_id })

abbrev pub is_some {ℓ} : {A : Type ℓ} → Option A → Bool
is_some none = false
is_some (some _) = true

module _ (is_uuid : String → Bool) where
  -- The membership is given by the role that it carries.
  unfoldable pub require_org : String → String → OrgDataRole → Tenant (OrgRow × AccessContextOrg)
  require_org user_id org_id minimum = do
    require (is_uuid org_id) not_found
    org ← gets (find_live_org org_id)
    context ← resolve user_id
    authorized ←
        of_result domain (authorize_org is_uuid context org_id (is_some org) minimum "projects")
    live ← or_raise org not_found
    pure (live, authorized)

  unfoldable pub require_project : String → String → ProjectRole → Tenant (ProjectRow × ProjectRole)
  require_project user_id project_id minimum = do
    require (is_uuid project_id) not_found
    project ← gets (find_live_project project_id)
    context ← resolve user_id
    role ←
        of_result domain
          (authorize_project is_uuid context project_id (live_of project) minimum false "projects")
    live ← or_raise project not_found
    pure (live, role)

  unfoldable pub load_project_access :
      String → String → Tenant (ProjectRow × Option AccessContextOrg × Option AccessContextProject)
  load_project_access user_id project_id = do
    require (is_uuid project_id) not_found
    project ← gets (find_live_project project_id)
    live ← or_raise project not_found
    context ← resolve user_id
    pure (live, find_org live.org_id context, find_project project_id context)
