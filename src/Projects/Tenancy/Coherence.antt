-- ===== src/Projects/Tenancy/Coherence.antt =====
-- What the cached access contexts say, against the tables.
use dhund_research_ai.L0.Tables.{is_null}
use dhund_research_ai.Platform.Access.{AccessContext, AccessContextProject, find_project}
use dhund_research_ai.Base.{
  Option, String, List, Bool-cases, ◌≡◌, All, find, inr, ok, value_or, some, none, str_eq,
  Option-cases, inl, refl, ◌∷◌, subst, eq_iff, ◌&&◌, [], false, arith, true, sym, if◌then◌else◌,
  filter, All-map, not, Bool, any,
}
use dhund_research_ai.Projects.Tenancy.Authorizer.{
  read_cache, resolve, load_from_store, resolve_from, write_cache,
}
use dhund_research_ai.Projects.Tenancy.{
  ProjectRow, find_live_project, Store, collect, ProjectMembershipRow,
  list_active_project_memberships, find_active_project_membership, list_active_org_memberships,
  listed_project, is_active_member,
}

-- The access of a user to a live project: the active membership, under the project's organization.
abbrev pub seat : ProjectRow → Option ProjectMembershipRow → Option AccessContextProject
seat live none = none
seat live (some row) =
    some (record { project_id = row.project_id; org_id = live.org_id; role = row.role })

-- A context says of a user what the tables say: of his organizations, and of each live project. It
-- names no project that there is not.
pub record Agrees (user_id : String) (context : AccessContext) (s : Store) : Type 0 where
  pub orgs : context.orgs ≡ list_active_org_memberships user_id s
  pub projects :
      (project_id : String) (live : ProjectRow)
      → find_live_project project_id s ≡ some live
      → find_project project_id context
        ≡ seat live (find_active_project_membership project_id user_id s)
  pub unknown :
      (project_id : String)
      → any (λ row. str_eq row.id project_id) s.projects ≡ false
      → find_project project_id context ≡ none

-- Every cached context agrees with the tables, for the user it belongs to.
abbrev pub Coherent : Store → Type 0
Coherent s = All (λ context. Agrees context.user_id context s) s.cache

listed-found :
    (user_id project_id : String) (live : ProjectRow) (s : Store) (rows : List ProjectMembershipRow)
    → find_live_project project_id s ≡ some live
    → find (λ row. str_eq row.project_id project_id) (collect (listed_project user_id s) rows)
      ≡ seat live (find (is_active_member project_id user_id) rows)
unfolding collect
listed-found user_id project_id live s [] found = refl
listed-found user_id project_id live s (row ∷ rows) found =
    let rest = listed-found user_id project_id live s rows found in
    elim (Bool-cases (str_eq row.user_id user_id && is_null row.revoked_at)) [
      | inr unlisted ↦
          let unseated : is_active_member project_id user_id row ≡ false = ground arith in
          rw (unlisted, unseated) rest
      | inl listed ↦ elim (Bool-cases (str_eq row.project_id project_id)) [
        | inl same ↦
            let seated : is_active_member project_id user_id row ≡ true = ground arith in
            let e : row.project_id ≡ project_id = (eq_iff row.project_id project_id).0 same in
            let live_row : find_live_project row.project_id s ≡ some live =
              subst (λ id. find_live_project id s ≡ some live) (sym e) found in
            rw (listed, seated, live_row, same) refl
        | inr other ↦
            let unseated : is_active_member project_id user_id row ≡ false = ground arith in
            elim (Option-cases (find_live_project row.project_id s)) [
              | inl gone ↦ rw (listed, unseated, gone) rest
              | inr (project, there) ↦ rw (listed, unseated, there, other) rest
            ]
      ]
    ]

pub collect-cong {ℓ κ} :
    {A : Type ℓ} {B : Type κ} (f g : A → Option B)
    → ((x : A) → f x ≡ g x)
    → (xs : List A) → collect f xs ≡ collect g xs
unfolding collect
collect-cong f g same [] = refl
collect-cong f g same (x ∷ xs) = rw (same x, collect-cong f g same xs) refl

unknown-missing :
    (project_id : String) (rows : List ProjectRow)
    → any (λ row. str_eq row.id project_id) rows ≡ false
    → find (λ row. str_eq row.id project_id && is_null row.deleted_at) rows ≡ none
unknown-missing project_id [] h = refl
unknown-missing project_id (row ∷ rows) h = ground (arith, unknown-missing project_id rows)

unlisted :
    (user_id project_id : String) (s : Store) (rows : List ProjectMembershipRow)
    → find_live_project project_id s ≡ none
    → find (λ row. str_eq row.project_id project_id) (collect (listed_project user_id s) rows)
      ≡ none
unfolding collect
unlisted user_id project_id s [] missing = refl
unlisted user_id project_id s (row ∷ rows) missing =
    let rest = unlisted user_id project_id s rows missing in
    elim (Bool-cases (str_eq row.user_id user_id && is_null row.revoked_at)) [
      | inr out ↦ rw out rest
      | inl listed ↦ elim (Option-cases (find_live_project row.project_id s)) [
        | inl gone ↦ rw (listed, gone) rest
        | inr (project, there) ↦ elim (Bool-cases (str_eq row.project_id project_id)) [
          | inl same ↦ absurd (ground (arith, (eq_iff row.project_id project_id).0 same))
          | inr other ↦ rw (listed, there, other) rest
        ]
      ]
    ]

-- What is read from the tables agrees with them.
pub load_from_store-Agrees :
    (user_id : String) (s : Store) → Agrees user_id (load_from_store user_id s) s
unfolding load_from_store list_active_project_memberships find_active_project_membership
    find_live_project
load_from_store-Agrees user_id s = record {
  orgs = refl;
  projects = λ project_id live found. listed-found user_id project_id live s s.memberships found;
  unknown = λ project_id none_such.
      unlisted user_id project_id s s.memberships (unknown-missing project_id s.projects none_such);
}

-- The context that a request sees, and the cache after it was resolved.
abbrev pub seen : String → Store → AccessContext
seen user_id s = value_or (read_cache user_id s) (load_from_store user_id s)

abbrev cache_with : Option AccessContext → String → Store → List AccessContext
cache_with (some cached) user_id s = s.cache
cache_with none user_id s = if s.cache_up then load_from_store user_id s ∷ s.cache else s.cache

abbrev pub cache_after : String → Store → List AccessContext
cache_after user_id s = cache_with (read_cache user_id s) user_id s

pub resolve-eq :
    (user_id : String) (s : Store)
    → resolve user_id s ≡ (ok (seen user_id s), record s { cache = cache_after user_id s })
unfolding resolve resolve_from write_cache
resolve-eq user_id s = elim (Option-cases (read_cache user_id s)) [
  | inl miss ↦ rw miss refl
  | inr (cached, hit) ↦ rw hit refl
]

cached-Agrees :
    (user_id : String) (s : Store) (cache : List AccessContext) (context : AccessContext)
    → All (λ context. Agrees context.user_id context s) cache
    → find (λ context. str_eq context.user_id user_id) cache ≡ some context
    → Agrees user_id context s
cached-Agrees user_id s [] context h found = cc
cached-Agrees user_id s (first ∷ cache) context h found =
    elim (Bool-cases (str_eq first.user_id user_id)) [
      | inl own ↦
          let same : some first ≡ some context = rw own at found in
          let e : first ≡ context = cc in
          subst (λ c. Agrees user_id c s) e
            (subst (λ id. Agrees id first s) ((eq_iff first.user_id user_id).0 own) h.0)
      | inr other ↦ cached-Agrees user_id s cache context h.1 (rw other at found)
    ]

read_cache-found :
    (user_id : String) (context : AccessContext) (s : Store)
    → read_cache user_id s ≡ some context
    → find (λ context. str_eq context.user_id user_id) s.cache ≡ some context
unfolding read_cache
read_cache-found user_id context s h = elim (Bool-cases s.cache_up) [
  | inl up ↦ ground arith
  | inr down ↦ absurd (ground arith)
]

-- What a request sees agrees with the tables.
pub seen-Agrees : (user_id : String) (s : Store) → Coherent s → Agrees user_id (seen user_id s) s
seen-Agrees user_id s h = elim (Option-cases (read_cache user_id s)) [
  | inl miss ↦ rw miss (load_from_store-Agrees user_id s)
  | inr (cached, hit) ↦
      rw hit (cached-Agrees user_id s s.cache cached h (read_cache-found user_id cached s hit))
]

-- Writing to the cache leaves the tables.
pub Agrees-cached :
    (user_id : String) (context : AccessContext) (s : Store) (cache : List AccessContext)
    → Agrees user_id context s
    → Agrees user_id context (record s { cache = cache })
unfolding find_live_project find_active_project_membership list_active_org_memberships
Agrees-cached user_id context s cache h = record {
  orgs = h.orgs;
  projects = h.projects;
  unknown = h.unknown;
}

abbrev pub AllAgree : Store → List AccessContext → Type 0
AllAgree s cache = All (λ context. Agrees context.user_id context s) cache

pub Coherent-cached :
    (s : Store) (cache : List AccessContext)
    → AllAgree s cache
    → Coherent (record s { cache = cache })
Coherent-cached s cache h =
    All-map cache (λ context. Agrees-cached context.user_id context s cache) h

pub AllAgree-if :
    (s : Store) (b : Bool) (xs ys : List AccessContext)
    → AllAgree s xs
    → AllAgree s ys
    → AllAgree s (if b then xs else ys)
AllAgree-if s true xs ys h k = h
AllAgree-if s false xs ys h k = k

pub AllAgree-when :
    (s : Store) (b : Bool) (xs ys : List AccessContext)
    → b ≡ true
    → AllAgree s xs
    → AllAgree s (if b then xs else ys)
AllAgree-when s b xs ys on h = rw on h

load_from_store-own :
    (user_id : String) (s : Store)
    → Agrees (load_from_store user_id s).user_id (load_from_store user_id s) s
unfolding load_from_store
load_from_store-own user_id s = load_from_store-Agrees user_id s

-- Resolving keeps the cache coherent.
pub resolve-Coherent :
    (user_id : String) (s : Store)
    → Coherent s
    → Coherent (record s { cache = cache_after user_id s })
resolve-Coherent user_id s h = Coherent-cached s _ (elim (Option-cases (read_cache user_id s)) [
  | inr (cached, hit) ↦ rw hit h
  | inl miss ↦ rw miss (AllAgree-if s s.cache_up _ _ (load_from_store-own user_id s, h) h)
])

-- What is left of the cache by the invalidation for a user: nothing of his, if the cache answers.
abbrev pub without : String → List AccessContext → List AccessContext
without user_id cache = filter (λ context. not (str_eq context.user_id user_id)) cache

pub without-All :
    (user_id : String) (s t : Store) (cache : List AccessContext)
    → ((other : String) (context : AccessContext)
        → str_eq other user_id ≡ false
        → Agrees other context s
        → Agrees other context t)
    → AllAgree s cache
    → AllAgree t (without user_id cache)
without-All user_id s t [] keep h = tt
without-All user_id s t (context ∷ cache) keep h =
    elim (Bool-cases (str_eq context.user_id user_id)) [
      | inl own ↦ rw own (without-All user_id s t cache keep h.1)
      | inr other ↦
          simp other
            (keep context.user_id context other h.0, without-All user_id s t cache keep h.1)
    ]
