-- ===== src/Projects/Tenancy/Tests.antt =====
-- The tenancy operations at a concrete store.
use dhund_research_ai.Projects.Tenancy.Access.{LetsIn, require_project_iff}
use dhund_research_ai.Projects.Tenancy.Granted.{Granted, grant_membership-Granted}
use dhund_research_ai.Projects.Tenancy.Deleted.{Deleted, delete_project-Deleted}
use dhund_research_ai.Projects.Tenancy.Steps.{Reaches-Sound, and_then, none_yet, revoking}
use dhund_research_ai.L0.Tables.{is_null, update_many}
use dhund_research_ai.Platform.Access.{authorize_project}
use dhund_research_ai.Projects.Tenancy.Coherence.{load_from_store-Agrees}
use dhund_research_ai.Projects.Tenancy.Invariant.{Sound, Sound-cached}
use dhund_research_ai.Platform.Roles.{
  ProjectRole, editor, data_role, member, project_role_at_least, as_project_role, viewer,
  can_assign_project_role,
}
use dhund_research_ai.Base.{String, none, ◌∷◌, Bool, true, [], arith, refl, ◌≡◌, ok, ◌↔◌, false}
use dhund_research_ai.Projects.Tenancy.Service.{
  revoke_membership, existing_in, grant_membership, delete_project, patch_membership, delete_as,
  tombstone_and_enqueue,
}
use dhund_research_ai.Projects.Tenancy.Outcomes.{Revoked, revoke_membership-Revoked}
use dhund_research_ai.Projects.Tenancy.Members.{FewRows, append-FewRows}
use dhund_research_ai.Projects.Tenancy.{
  ProjectRow, Store, ProjectMembershipRow, OrgMembershipRow, team, list_active_org_memberships,
  list_active_project_memberships, collect, find_live_project, find_project_membership_by_id,
  revoke_project_membership, revoke_existing, set_revoked, find_active_org_membership,
  insert_project_membership, soft_delete_project, Entry, append_audit,
}
use dhund_research_ai.Projects.Tenancy.Authorizer.{
  load_from_store, require_project, resolve, resolve_from, read_cache, write_cache,
  invalidate_access_context, load_project_access,
}

abbrev any_id : String → Bool
any_id _ = true

abbrev takes_all : Entry → Bool
takes_all _ = true

abbrev owner_row : ProjectMembershipRow
owner_row = record {
  id = "m1";
  project_id = "p";
  user_id = "a";
  role = ProjectRole.owner;
  revoked_at = none;
}

abbrev editor_row : ProjectMembershipRow
editor_row = record { id = "m2"; project_id = "p"; user_id = "b"; role = editor; revoked_at = none }

abbrev project : ProjectRow
project = record { id = "p"; org_id = "o"; name = "Thesis"; settings = "{}"; deleted_at = none }

abbrev seat_of : String → OrgMembershipRow
seat_of user_id = record {
  org_id = "o";
  user_id = user_id;
  role = data_role member;
  revoked_at = none;
}

abbrev tables : Store
tables = record {
  orgs = record { id = "o"; kind = team; name = "Lab"; deleted_at = none } ∷ [];
  org_memberships = seat_of "a" ∷ seat_of "b" ∷ seat_of "c" ∷ [];
  projects = project ∷ [];
  memberships = owner_row ∷ editor_row ∷ [];
  cache = [];
  cache_up = true;
  outbox = [];
  audit = [];
}

few_rows : FewRows tables.memberships
few_rows =
    append-FewRows (owner_row ∷ []) editor_row
      (append-FewRows [] owner_row (λ id. ground arith, λ p u. ground arith) refl refl) refl refl

-- The editor's context is cached.
abbrev store : Store
store = record tables { cache = load_from_store "b" tables ∷ [] }

store-Sound : Sound store
unfolding load_from_store
store-Sound =
    Sound-cached tables (load_from_store "b" tables ∷ [])
      (record { ids = few_rows.0; seats = few_rows.1; up = refl; coherent = tt })
      (load_from_store-Agrees "b" tables, tt)

abbrev after_revoke : Store
after_revoke = (revoke_membership any_id takes_all 9 "a" "p" "m2" store).1

revoke_ok : revoke_membership any_id takes_all 9 "a" "p" "m2" store ≡ (ok tt, after_revoke)
unfolding append_audit revoke_membership require_project resolve resolve_from read_cache write_cache
    load_from_store list_active_org_memberships list_active_project_memberships collect
    find_live_project authorize_project is_null find_project_membership_by_id existing_in
    revoke_project_membership revoke_existing project_role_at_least as_project_role set_revoked
    update_many invalidate_access_context
revoke_ok = refl

revoke_membership-Revoked_example : Revoked any_id "a" store store-Sound "p" "m2" after_revoke
revoke_membership-Revoked_example =
    revoke_membership-Revoked any_id "a" store store-Sound takes_all 9 "p" "m2" after_revoke
      revoke_ok

abbrev after_grant : Store
after_grant = (grant_membership any_id takes_all "m3" "a" "p" "c" viewer store).1

abbrev new_row : ProjectMembershipRow
new_row = record { id = "m3"; project_id = "p"; user_id = "c"; role = viewer; revoked_at = none }

grant_ok :
    grant_membership any_id takes_all "m3" "a" "p" "c" viewer store ≡ (ok new_row, after_grant)
unfolding append_audit revoke_membership require_project resolve resolve_from read_cache write_cache
    load_from_store list_active_org_memberships list_active_project_memberships collect
    find_live_project authorize_project is_null find_project_membership_by_id existing_in
    revoke_project_membership revoke_existing project_role_at_least as_project_role set_revoked
    update_many invalidate_access_context grant_membership can_assign_project_role
    find_active_org_membership insert_project_membership
grant_ok = refl

grant_membership-Granted_example :
    Granted any_id "a" store store-Sound "p" "c" viewer new_row after_grant
grant_membership-Granted_example =
    grant_membership-Granted any_id "a" store store-Sound takes_all "m3" "p" "c" viewer new_row
      after_grant grant_ok

abbrev after_patch : Store
after_patch = (patch_membership any_id takes_all "a" "p" "m2" ProjectRole.admin store).1

abbrev admin_row : ProjectMembershipRow
admin_row = record {
  id = "m2";
  project_id = "p";
  user_id = "b";
  role = ProjectRole.admin;
  revoked_at = none;
}

abbrev after_delete : Store
after_delete = (delete_project any_id takes_all 9 "a" "p" store).1

delete_ok : delete_project any_id takes_all 9 "a" "p" store ≡ (ok tt, after_delete)
unfolding append_audit revoke_membership require_project resolve resolve_from read_cache write_cache
    load_from_store list_active_org_memberships list_active_project_memberships collect
    find_live_project authorize_project is_null find_project_membership_by_id existing_in
    revoke_project_membership revoke_existing project_role_at_least as_project_role set_revoked
    update_many invalidate_access_context delete_project load_project_access delete_as
    tombstone_and_enqueue soft_delete_project
delete_ok = refl

delete_project-Deleted_example : Deleted any_id "a" store store-Sound "p" after_delete
delete_project-Deleted_example =
    delete_project-Deleted any_id "a" store store-Sound takes_all 9 "p" after_delete delete_ok

Reaches-Sound_example : Sound after_revoke
Reaches-Sound_example =
    Reaches-Sound
      (and_then (none_yet store) (revoking 9 "a" "p" "m2" store takes_all (λ entry. refl)))
      store-Sound

-- Where the audit log refuses the entry of a revocation, the cached context stays, and still lets the
-- user in.
stale_after_refusal :
    (require_project any_id "b" "p" viewer
      (revoke_membership any_id (λ entry. false) 9 "a" "p" "m2" store).1).0
    ≡ ok (project, editor)
unfolding append_audit revoke_membership require_project resolve resolve_from read_cache write_cache
    load_from_store list_active_org_memberships list_active_project_memberships collect
    find_live_project authorize_project is_null find_project_membership_by_id existing_in
    revoke_project_membership revoke_existing project_role_at_least as_project_role set_revoked
    update_many invalidate_access_context
stale_after_refusal = refl

require_project_iff_example :
    ((after : Store) × (require_project any_id "b" "p" viewer store
        ≡ (ok (project, editor), after)))
    ↔ LetsIn any_id "b" "p" viewer store project editor
require_project_iff_example =
    require_project_iff any_id "b" "p" viewer store store-Sound.coherent project editor
