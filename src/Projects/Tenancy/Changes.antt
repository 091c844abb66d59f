-- ===== src/Projects/Tenancy/Changes.antt =====
-- Each change of the tables that a request makes keeps the store sound, with what the request does to
-- the cache.
use dhund_research_ai.Projects.Tenancy.Coherence.{
  Agrees, AllAgree, without, Coherent-cached, AllAgree-when, without-All,
}
use dhund_research_ai.L0.Tables.{update_many, is_null}
use dhund_research_ai.Platform.Access.{AccessContext}
use dhund_research_ai.Base.{
  String, ℕ, List, Option, str_eq, some, ◌&&◌, length, All-map, filter, ◌≤◌, refl, ◌≡◌, false, find,
  if◌then◌else◌, Bool-cases, Option-cases, true, arith, inl, inr, eq_iff, All-of, sym, ◌∙◌,
}
use dhund_research_ai.Projects.Tenancy.Invariant.{
  Sound, is_live_project, Agrees-projects, Agrees-orgs, Agrees-memberships,
}
use dhund_research_ai.Projects.Tenancy.{
  Store, patched, ProjectMembershipRow, is_active_member, ProjectRow,
}
use dhund_research_ai.L0.Tables.Updates.{find-kept, any-kept, find-emptied, find-unconcerned}

live_patched :
    (project_id id : String) (name settings : Option String) (rows : List ProjectRow)
    (row : ProjectRow)
    → find
        (is_live_project id)
        (update_many (is_live_project project_id) (patched name settings) rows)
      ≡ some row
    → (before : ProjectRow) × (find (is_live_project id) rows ≡ some before)
      × (before.org_id ≡ row.org_id)
unfolding patched
live_patched project_id id name settings rows row found =
    let kept =
      find-kept (is_live_project id) (is_live_project project_id) (patched name settings)
        (λ row. refl) rows in
    elim (Option-cases (find (is_live_project id) rows)) [
      | inl missing ↦ absurd (ground arith)
      | inr (before, there) ↦ elim (Bool-cases (is_live_project project_id before)) [
        | inl hit ↦ (before, there, ground arith)
        | inr miss ↦ (before, there, ground arith)
      ]
    ]

other_id :
    (id project_id : String) (row : ProjectRow)
    → str_eq project_id id ≡ false
    → is_live_project project_id row ≡ true
    → str_eq row.id id ≡ false
other_id id project_id row other hit = ground (arith, eq_iff row.id project_id)

live_deleted :
    (now : ℕ) (project_id id : String) (rows : List ProjectRow) (row : ProjectRow)
    → find (is_live_project id) (
        update_many (is_live_project project_id) (λ row. record row { deleted_at = some now }) rows)
      ≡ some row
    → (before : ProjectRow) × (find (is_live_project id) rows ≡ some before)
      × (before.org_id ≡ row.org_id)
unfolding is_null
live_deleted now project_id id rows row found = elim (Bool-cases (str_eq project_id id)) [
  | inl same ↦
      let gone =
        find-emptied (is_live_project id) (is_live_project project_id)
          (λ row. record row { deleted_at = some now }) rows
          (All-of rows (λ row. ground (arith, (eq_iff project_id id).0 same)))
          (λ row. ground arith) in
      absurd (ground arith)
  | inr other ↦
      let kept =
        find-unconcerned (is_live_project id) (is_live_project project_id)
          (λ row. record row { deleted_at = some now }) rows
          (All-of rows
            (λ row hit. let e = other_id id project_id row other hit in (rw e refl, rw e refl))) in
      (row, sym kept ∙ found, refl)
]

module _ (s : Store) (sound : Sound s) where
  all_still :
      (t : Store)
      → ((user_id : String) (context : AccessContext)
          → Agrees user_id context s
          → Agrees user_id context t)
      → AllAgree t s.cache
  all_still t keeps = All-map s.cache (λ context. keeps context.user_id context) sound.coherent

  pub Sound-renamed_org :
      (org_id name : String)
      → Sound (record s {
        orgs =
            update_many
              (λ row. str_eq row.id org_id && is_null row.deleted_at)
              (λ row. record row { name = name })
              s.orgs;
      })
  Sound-renamed_org org_id name = record {
    ids = sound.ids;
    seats = sound.seats;
    up = sound.up;
    coherent = all_still _ (λ user_id context. Agrees-orgs user_id context s _ (λ id.
        any-kept (λ org. str_eq org.id id && is_null org.deleted_at) _ _ (λ row. refl) s.orgs));
  }

  pub Sound-patched :
      (project_id : String) (name settings : Option String)
      → Sound (record s {
        projects = update_many (is_live_project project_id) (patched name settings) s.projects;
      })
  unfolding patched
  Sound-patched project_id name settings = record {
    ids = sound.ids;
    seats = sound.seats;
    up = sound.up;
    coherent = all_still _ (λ user_id context.
        Agrees-projects user_id context s _
          (λ id row found. live_patched project_id id name settings s.projects row found)
          (λ id none_such.
            rw⁻¹
              (any-kept (λ row. str_eq row.id id) (is_live_project project_id)
                (patched name settings) (λ row. refl) s.projects)
              none_such));
  }

  pub Sound-deleted :
      (now : ℕ) (project_id : String)
      → Sound (record s {
        projects =
            update_many
              (is_live_project project_id)
              (λ row. record row { deleted_at = some now })
              s.projects;
      })
  Sound-deleted now project_id = record {
    ids = sound.ids;
    seats = sound.seats;
    up = sound.up;
    coherent = all_still _ (λ user_id context.
        Agrees-projects user_id context s _
          (λ id row found. live_deleted now project_id id s.projects row found)
          (λ id none_such.
            rw⁻¹
              (any-kept (λ row. str_eq row.id id) (is_live_project project_id)
                (λ row. record row { deleted_at = some now }) (λ row. refl) s.projects)
              none_such));
  }

  -- Memberships of one user change, and what is cached for him is dropped.
  pub Sound-memberships :
      (target : String) (memberships : List ProjectMembershipRow)
      → ((id : String) → length (filter (λ row. str_eq row.id id) memberships) ≤ 1)
      → ((project_id user_id : String)
          → length (filter (is_active_member project_id user_id) memberships) ≤ 1)
      → ((project_id other : String)
          → str_eq other target ≡ false
          → find (is_active_member project_id other) memberships
            ≡ find (is_active_member project_id other) s.memberships)
      → Sound (record s {
        memberships = memberships;
        cache = if s.cache_up then without target s.cache else s.cache;
      })
  Sound-memberships target memberships ids seats same = record {
    ids = ids;
    seats = seats;
    up = sound.up;
    coherent =
        Coherent-cached (record s { memberships = memberships }) _
          (AllAgree-when (record s { memberships = memberships }) s.cache_up _ _ sound.up
            (without-All target s (record s { memberships = memberships }) s.cache
              (λ other context apart.
                Agrees-memberships other context s memberships
                  (λ project_id. same project_id other apart))
              sound.coherent));
  }
