-- ===== src/Projects/Tenancy/Steps.antt =====
-- The requests that the service answers one after the other, on one store.
use dhund_research_ai.Projects.Tenancy.Members.{has_id}
use dhund_research_ai.Platform.Roles.{ProjectRole}
use dhund_research_ai.Projects.Tenancy.Created.{NewIds}
use dhund_research_ai.Projects.Tenancy.Coherence.{AllAgree}
use dhund_research_ai.Projects.Tenancy.Kept.{
  get_org-Sound, patch_org-Sound, create_project-Sound, get_project-Sound, patch_project-Sound,
  delete_project-Sound, grant_membership-Sound, patch_membership-Sound, revoke_membership-Sound,
}
use dhund_research_ai.Projects.Tenancy.Invariant.{Sound, Sound-cached}
use dhund_research_ai.Projects.Tenancy.Service.{
  get_org, patch_org, create_project, get_project, patch_project, delete_project, grant_membership,
  patch_membership, revoke_membership,
}
use dhund_research_ai.Projects.Tenancy.{Store, Entry}
use dhund_research_ai.Base.{
  String, Bool, List, filter, ◌∷◌, Bool-cases, inl, Option, inr, ℕ, [], any, ◌≡◌, false, true,
}
use dhund_research_ai.Platform.Access.{AccessContext}

-- One request, or the expiry of cached contexts.
pub data Step (is_uuid : String → Bool) : Store → Store → Type 0 where
  getting_org :
      (user_id org_id : String) (s : Store) → Step is_uuid s (get_org is_uuid user_id org_id s).1
  patching_org :
      (user_id org_id name : String) (s : Store)
      → Step is_uuid s (patch_org is_uuid user_id org_id name s).1
  creating_project :
      (project_id membership_id user_id org_id name settings : String) (s : Store)
      → NewIds project_id membership_id s
      → Step is_uuid s
          (create_project is_uuid project_id membership_id user_id org_id name settings s).1
  getting_project :
      (user_id project_id : String) (s : Store)
      → Step is_uuid s (get_project is_uuid user_id project_id s).1
  patching_project :
      (user_id project_id : String) (name settings : Option String) (s : Store)
      → Step is_uuid s (patch_project is_uuid user_id project_id name settings s).1
  deleting_project :
      (audits : Entry → Bool) (now : ℕ) (user_id project_id : String) (s : Store)
      → Step is_uuid s (delete_project is_uuid audits now user_id project_id s).1
  granting :
      (membership_id user_id project_id target_id : String) (role : ProjectRole) (s : Store)
      → any (has_id membership_id) s.memberships ≡ false
      → (audits : Entry → Bool) → ((e : Entry) → audits e ≡ true)
      → Step is_uuid s
          (grant_membership is_uuid audits membership_id user_id project_id target_id role s).1
  patching_membership :
      (user_id project_id membership_id : String) (role : ProjectRole) (s : Store)
      → (audits : Entry → Bool) → ((e : Entry) → audits e ≡ true)
      → Step is_uuid s (patch_membership is_uuid audits user_id project_id membership_id role s).1
  revoking :
      (now : ℕ) (user_id project_id membership_id : String) (s : Store)
      → (audits : Entry → Bool) → ((e : Entry) → audits e ≡ true)
      → Step is_uuid s (revoke_membership is_uuid audits now user_id project_id membership_id s).1
  expiring :
      (fresh : AccessContext → Bool) (s : Store)
      → Step is_uuid s (record s { cache = filter fresh s.cache })

pub data Reaches (is_uuid : String → Bool) : Store → Store → Type 0 where
  none_yet : (s : Store) → Reaches is_uuid s s
  and_then : {s t u : Store} → Reaches is_uuid s t → Step is_uuid t u → Reaches is_uuid s u

filter-AllAgree :
    (fresh : AccessContext → Bool) (s : Store) (cache : List AccessContext)
    → AllAgree s cache
    → AllAgree s (filter fresh cache)
filter-AllAgree fresh s [] h = tt
filter-AllAgree fresh s (context ∷ cache) h = elim (Bool-cases (fresh context)) [
  | inl stays ↦ rw stays (h.0, filter-AllAgree fresh s cache h.1)
  | inr goes ↦ rw goes (filter-AllAgree fresh s cache h.1)
]

Step-Sound : {is_uuid : String → Bool} {s t : Store} → Step is_uuid s t → Sound s → Sound t
Step-Sound (getting_org user_id org_id s) sound = get_org-Sound _ user_id s sound org_id
Step-Sound (patching_org user_id org_id name s) sound =
    patch_org-Sound _ user_id s sound org_id name
Step-Sound (creating_project project_id membership_id user_id org_id name settings s new) sound =
    create_project-Sound _ user_id s sound project_id membership_id org_id name settings new
Step-Sound (getting_project user_id project_id s) sound =
    get_project-Sound _ user_id s sound project_id
Step-Sound (patching_project user_id project_id name settings s) sound =
    patch_project-Sound _ user_id s sound project_id name settings
Step-Sound (deleting_project audits now user_id project_id s) sound =
    delete_project-Sound _ user_id s sound audits now project_id
Step-Sound (granting membership_id user_id project_id target_id role s new audits takes) sound =
    grant_membership-Sound _ user_id s sound membership_id project_id target_id role new audits
      takes
Step-Sound (patching_membership user_id project_id membership_id role s audits takes) sound =
    patch_membership-Sound _ user_id s sound project_id membership_id role audits takes
Step-Sound (revoking now user_id project_id membership_id s audits takes) sound =
    revoke_membership-Sound _ user_id s sound now project_id membership_id audits takes
Step-Sound (expiring fresh s) sound =
    Sound-cached s (filter fresh s.cache) sound (filter-AllAgree fresh s s.cache sound.coherent)

-- From a sound store, any requests in any order, successful or not, with cached contexts expiring in
-- between, lead to a sound store: membership ids are still unique, a user still has at most one
-- active membership of a project, and every cached context still agrees with the tables. Requests run
-- one at a time, the cache answers, the ids that are generated are new, and the audit log takes the
-- entries of the requests that change memberships: it may refuse those of deletions.
pub Reaches-Sound :
    {is_uuid : String → Bool} {s t : Store} → Reaches is_uuid s t → Sound s → Sound t
Reaches-Sound (none_yet s) sound = sound
Reaches-Sound (and_then before step) sound = Step-Sound step (Reaches-Sound before sound)
