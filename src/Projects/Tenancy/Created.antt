-- ===== src/Projects/Tenancy/Created.antt =====
-- The store after a project is created.
use dhund_research_ai.L0.Tables.Updates.{find-append, find-none}
use dhund_research_ai.Projects.Tenancy.Coherence.{
  Agrees, without, Coherent-cached, AllAgree-when, seat, without-All,
}
use dhund_research_ai.Platform.Access.{AccessContext, find_project}
use dhund_research_ai.Projects.Tenancy.Members.{has_id, append-FewRows, append-others}
use dhund_research_ai.Projects.Tenancy.Invariant.{Sound, is_live_project}
use dhund_research_ai.Projects.Tenancy.{
  Store, ProjectRow, ProjectMembershipRow, find_live_project, find_active_project_membership,
  is_active_member, list_active_org_memberships,
}
use dhund_research_ai.Base.{
  String, List, any, str_eq, ◌≡◌, ◌++◌, ◌∷◌, false, if◌then◌else◌, [], arith, ◌∙◌, some, refl, ap,
  find, sym, any-append, Option-cases, inr, inl, Bool-cases, eq_iff, none, subst,
}

-- The generated ids are new: no project has the one, no membership is of it, and no membership has
-- the other.
pub record NewIds (project_id membership_id : String) (s : Store) : Type 0 where
  pub project : any (λ row. str_eq row.id project_id) s.projects ≡ false
  pub members : any (λ row. str_eq row.project_id project_id) s.memberships ≡ false
  pub membership : any (has_id membership_id) s.memberships ≡ false

no_member :
    (project_id user_id : String) (rows : List ProjectMembershipRow)
    → any (λ row. str_eq row.project_id project_id) rows ≡ false
    → any (is_active_member project_id user_id) rows ≡ false
no_member project_id user_id [] h = refl
no_member project_id user_id (row ∷ rows) h = ground (arith, no_member project_id user_id rows)

module _ (s : Store) (project : ProjectRow) (row : ProjectMembershipRow)
    (new : NewIds project.id row.id s) where
  abbrev pub created : Store
  created = record s {
    projects = s.projects ++ (project ∷ []);
    memberships = s.memberships ++ (row ∷ []);
  }

  created-seat :
      (other project_id : String) (context : AccessContext) (live : ProjectRow)
      → str_eq other row.user_id ≡ false
      → Agrees other context s
      → find_live_project project_id created ≡ some live
      → find_project project_id context
        ≡ seat live (find (is_active_member project_id other) s.memberships)
  unfolding find_live_project find_active_project_membership
  created-seat other project_id context live apart h found =
      let appended = find-append (is_live_project project_id) s.projects project in
      elim (Option-cases (find (is_live_project project_id) s.projects)) [
        | inr (before, there) ↦
            let same : before ≡ live = ground arith in
            h.projects project_id before there
            ∙ ap (λ l. seat l (find (is_active_member project_id other) s.memberships)) same
        | inl missing ↦ elim (Bool-cases (str_eq project.id project_id)) [
          | inr elsewhere ↦ absurd (ground arith)
          | inl here ↦
              let e : project.id ≡ project_id = (eq_iff project.id project_id).0 here in
              let unheard : find_project project_id context ≡ none =
                h.unknown project_id
                  (subst (λ id. any (λ row. str_eq row.id id) s.projects ≡ false) e new.project) in
              let outside : find (is_active_member project_id other) s.memberships ≡ none =
                find-none (is_active_member project_id other) s.memberships (
                  no_member project_id other s.memberships (
                    subst (λ id. any (λ row. str_eq row.project_id id) s.memberships ≡ false) e
                      new.members)) in
              rw (unheard, outside) refl
        ]
      ]

  created-Agrees :
      (other : String) (context : AccessContext)
      → str_eq other row.user_id ≡ false
      → Agrees other context s
      → Agrees other context created
  unfolding find_live_project find_active_project_membership list_active_org_memberships
  created-Agrees other context apart h = record {
    orgs = h.orgs;
    projects = λ project_id live found.
        created-seat other project_id context live apart h found
        ∙ ap (seat live) (sym (append-others s.memberships row project_id other apart));
    unknown = λ project_id none_such.
        h.unknown project_id
          (ground (arith, any-append (λ r. str_eq r.id project_id) s.projects (project ∷ [])));
  }

  -- Where the row is of the project, the store stays sound, with what is cached for its user dropped.
  pub created-Sound :
      row.project_id ≡ project.id
      → Sound s
      → Sound
          (record created { cache = if s.cache_up then without row.user_id s.cache else s.cache })
  created-Sound of_project sound =
      let few =
        append-FewRows s.memberships row (sound.ids, sound.seats) new.membership
          (rw of_project (no_member project.id row.user_id s.memberships new.members)) in
      record {
        ids = few.0;
        seats = few.1;
        up = sound.up;
        coherent = Coherent-cached created _ (
            AllAgree-when created s.cache_up _ _ sound.up
              (without-All row.user_id s created s.cache created-Agrees sound.coherent));
      }
