-- ===== src/Projects/Tenancy/Invariant.antt =====
-- What holds of the store between two requests, and that a change of the tables keeps it.
use dhund_research_ai.L0.Tables.{is_null}
use dhund_research_ai.Platform.Access.{AccessContext}
use dhund_research_ai.Projects.Tenancy.Coherence.{
  cache_after, resolve-Coherent, Agrees, Coherent, AllAgree, Coherent-cached, seat, collect-cong,
}
use dhund_research_ai.Base.{
  String, Option, List, length, Bool, filter, str_eq, All-map, ◌≤◌, ◌&&◌, ◌≡◌, true, refl, find,
  some, ◌∙◌, any, false, ap, none, sym,
}
use dhund_research_ai.Projects.Tenancy.{
  find_live_project, Store, find_active_project_membership, ProjectRow, Entry,
  list_active_org_memberships, is_active_member, OrgRow, ProjectMembershipRow,
}

-- No two memberships share an id, a user has at most one active membership of a project, the cache
-- answers, and what is cached agrees with the tables.
pub record Sound (s : Store) : Type 0 where
  pub ids : (id : String) → length (filter (λ row. str_eq row.id id) s.memberships) ≤ 1
  pub seats :
      (project_id user_id : String)
      → length (filter (is_active_member project_id user_id) s.memberships) ≤ 1
  pub up : s.cache_up ≡ true
  pub coherent : Coherent s

pub Sound-cached :
    (s : Store) (cache : List AccessContext)
    → Sound s
    → AllAgree s cache
    → Sound (record s { cache = cache })
Sound-cached s cache h agree = record {
  ids = h.ids;
  seats = h.seats;
  up = h.up;
  coherent = Coherent-cached s cache agree;
}

pub resolve-Sound :
    (user_id : String) (s : Store) → Sound s → Sound (record s { cache = cache_after user_id s })
resolve-Sound user_id s h = record {
  ids = h.ids;
  seats = h.seats;
  up = h.up;
  coherent = resolve-Coherent user_id s h.coherent;
}

-- The outbox and the audit log are not read.
pub Agrees-logged :
    (user_id : String) (context : AccessContext) (s : Store) (outbox audit : List Entry)
    → Agrees user_id context s
    → Agrees user_id context (record s { outbox = outbox; audit = audit })
unfolding find_live_project find_active_project_membership list_active_org_memberships
Agrees-logged user_id context s outbox audit h = record {
  orgs = h.orgs;
  projects = h.projects;
  unknown = h.unknown;
}

pub Sound-logged :
    (s : Store) (outbox audit : List Entry)
    → Sound s
    → Sound (record s { outbox = outbox; audit = audit })
Sound-logged s outbox audit h = record {
  ids = h.ids;
  seats = h.seats;
  up = h.up;
  coherent =
      All-map s.cache (λ context. Agrees-logged context.user_id context s outbox audit) h.coherent;
}

seat-org :
    (live other : ProjectRow) (row : Option ProjectMembershipRow)
    → live.org_id ≡ other.org_id
    → seat live row ≡ seat other row
seat-org live other none e = refl
seat-org live other (some row) e = rw e refl

abbrev pub is_live_project : String → ProjectRow → Bool
is_live_project project_id row = str_eq row.id project_id && is_null row.deleted_at

-- Projects may be renamed or deleted: those that are live were, in the same organization.
pub Agrees-projects :
    (user_id : String) (context : AccessContext) (s : Store) (projects : List ProjectRow)
    → ((project_id : String) (row : ProjectRow)
        → find (is_live_project project_id) projects ≡ some row
        → (before : ProjectRow) × (find (is_live_project project_id) s.projects ≡ some before)
          × (before.org_id ≡ row.org_id))
    → ((project_id : String)
        → any (λ row. str_eq row.id project_id) projects ≡ false
        → any (λ row. str_eq row.id project_id) s.projects ≡ false)
    → Agrees user_id context s
    → Agrees user_id context (record s { projects = projects })
unfolding find_live_project find_active_project_membership list_active_org_memberships
Agrees-projects user_id context s projects was known h = record {
  orgs = h.orgs;
  projects = λ project_id row found.
      let (before, there, same) = was project_id row found in
      h.projects project_id before there ∙ seat-org before row _ same;
  unknown = λ project_id none_such. h.unknown project_id (known project_id none_such);
}

-- Memberships may change where they are not the user's.
pub Agrees-memberships :
    (user_id : String) (context : AccessContext) (s : Store)
    (memberships : List ProjectMembershipRow)
    → ((project_id : String)
        → find (is_active_member project_id user_id) memberships
          ≡ find (is_active_member project_id user_id) s.memberships)
    → Agrees user_id context s
    → Agrees user_id context (record s { memberships = memberships })
unfolding find_live_project find_active_project_membership list_active_org_memberships
Agrees-memberships user_id context s memberships same h = record {
  orgs = h.orgs;
  projects = λ project_id row found.
      h.projects project_id row found ∙ ap (seat row) (sym (same project_id));
  unknown = h.unknown;
}

-- Organizations may be renamed.
pub Agrees-orgs :
    (user_id : String) (context : AccessContext) (s : Store) (orgs : List OrgRow)
    → ((org_id : String)
        → any (λ org. str_eq org.id org_id && is_null org.deleted_at) orgs
          ≡ any (λ org. str_eq org.id org_id && is_null org.deleted_at) s.orgs)
    → Agrees user_id context s
    → Agrees user_id context (record s { orgs = orgs })
unfolding find_live_project find_active_project_membership list_active_org_memberships
Agrees-orgs user_id context s orgs same h = record {
  orgs = h.orgs ∙ collect-cong _ _ (λ row. rw (same row.org_id) refl) s.org_memberships;
  projects = h.projects;
  unknown = h.unknown;
}
