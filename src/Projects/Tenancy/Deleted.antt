-- ===== src/Projects/Tenancy/Deleted.antt =====
-- What the deletion of a project has done when it succeeds.
use mathlib.Core.List.{append_assoc}
use dhund_research_ai.Projects.Tenancy.Outcomes.{live-id}
use dhund_research_ai.Projects.Tenancy.Access.{seen-seat, seen-org, not_live-not_found}
use dhund_research_ai.L0.Tables.Updates.{find-emptied}
use dhund_research_ai.L0.Tables.{is_null, update_many}
use dhund_research_ai.Projects.Tenancy.Coherence.{seen, cache_after, resolve-eq}
use dhund_research_ai.Projects.Tenancy.Service.{delete_project, delete_as, tombstone_and_enqueue}
use dhund_research_ai.Projects.Tenancy.Authorizer.{
  load_from_store, require_project, not_found, load_project_access,
}
use dhund_research_ai.Platform.Access.{is_billing, find_org, is_org_owner, find_project}
use dhund_research_ai.Platform.Roles.{ProjectRole, project_role_text, viewer, editor, admin, owner}
use dhund_research_ai.Projects.Tenancy.Invariant.{Sound, is_live_project}
use dhund_research_ai.Projects.Tenancy.{
  Store, ProjectRow, find_live_project, Entry, ProjectMembershipRow, find_active_project_membership,
  project_deleted, break_glass_used, soft_delete_project, append_audit,
}
use dhund_research_ai.Base.{
  String, Bool, List, str_eq, ◌≡◌, true, some, arith, ◌∷◌, [], false, ◌⊎◌, ◌++◌, refl, none, err, ℕ,
  ok, Bool-cases, All-of, length, subst, inr, filter, Option-cases, inl, ◌==◌, sym, ok≢err, ap, ◌∙◌,
}

owner-text : (r : ProjectRole) → str_eq (project_role_text r) "OWNER" ≡ true → r ≡ ProjectRole.owner
owner-text viewer h = absurd (ground arith)
owner-text editor h = absurd (ground arith)
owner-text admin h = absurd (ground arith)
owner-text owner h = refl

abbrev entries : ProjectRow → String → Bool → List Entry
entries project actor_id true =
    project_deleted project.id actor_id ∷ break_glass_used project.id actor_id ∷ []
entries project actor_id false = project_deleted project.id actor_id ∷ []

module _ (audits : Entry → Bool) (now : ℕ) (actor_id : String) (project : ProjectRow)
    (s : Store) where
  -- The store after `tombstoneAndEnqueue`, with what it wrote.
  abbrev tombstoned : List Entry → List Entry → Store
  tombstoned outbox audit = record s {
    projects =
        update_many (is_live_project project.id) (λ row. record row { deleted_at = some now })
          s.projects;
    outbox = outbox;
    audit = audit;
  }

  tombstoned-gone :
      (outbox audit : List Entry) → find_live_project project.id (tombstoned outbox audit) ≡ none
  unfolding find_live_project is_null
  tombstoned-gone outbox audit =
      find-emptied (is_live_project project.id) (is_live_project project.id)
        (λ row. record row { deleted_at = some now }) s.projects
        (All-of s.projects (λ row hit. hit)) (λ row. ground arith)

  tombstone-works :
      (break_glass : Bool)
      → (length (filter (is_live_project project.id) s.projects) == 1) ≡ true
      → audits (project_deleted project.id actor_id) ≡ true
      → (break_glass ≡ true → audits (break_glass_used project.id actor_id) ≡ true)
      → tombstone_and_enqueue audits now actor_id project break_glass s ≡ (
        ok tt,
        tombstoned
            (s.outbox ++ entries project actor_id break_glass)
            (s.audit ++ entries project actor_id break_glass),
      )
  unfolding append_audit tombstone_and_enqueue soft_delete_project
  tombstone-works false one first second = rw (one, first) refl
  tombstone-works true one first second =
      rw (one, first, second refl, append_assoc s.outbox _ _, append_assoc s.audit _ _) refl

  -- A deletion that succeeds has changed a row, and both its entries were taken.
  tombstone-taken :
      (break_glass : Bool) (after : Store)
      → tombstone_and_enqueue audits now actor_id project break_glass s ≡ (ok tt, after)
      → ((length (filter (is_live_project project.id) s.projects) == 1) ≡ true)
        × (audits (project_deleted project.id actor_id) ≡ true)
        × (break_glass ≡ true → audits (break_glass_used project.id actor_id) ≡ true)
  unfolding append_audit tombstone_and_enqueue soft_delete_project
  tombstone-taken false after =
      elim (Bool-cases (length (filter (is_live_project project.id) s.projects) == 1)) [
        | inr miss ↦ rw miss (λ h. absurd (ok≢err (sym (ap (λ x. x.0) h))))
        | inl one ↦ elim (Bool-cases (audits (project_deleted project.id actor_id))) [
          | inr refused ↦ rw (one, refused) (λ h. absurd (ok≢err (sym (ap (λ x. x.0) h))))
          | inl taken ↦ rw (one, taken) (λ h. (refl, refl, λ e. absurd (ground arith)))
        ]
      ]
  tombstone-taken true after =
      elim (Bool-cases (length (filter (is_live_project project.id) s.projects) == 1)) [
        | inr miss ↦ rw miss (λ h. absurd (ok≢err (sym (ap (λ x. x.0) h))))
        | inl one ↦ elim (Bool-cases (audits (project_deleted project.id actor_id))) [
          | inr refused ↦ rw (one, refused) (λ h. absurd (ok≢err (sym (ap (λ x. x.0) h))))
          | inl taken ↦ elim (Bool-cases (audits (break_glass_used project.id actor_id))) [
            | inr refused ↦ rw (one, taken, refused) (λ h. absurd (ok≢err (sym (ap (λ x. x.0) h))))
            | inl also ↦ rw (one, taken, also) (λ h. (refl, refl, λ e. refl))
          ]
        ]
      ]

  tombstone-ok :
      (break_glass : Bool) (after : Store)
      → tombstone_and_enqueue audits now actor_id project break_glass s ≡ (ok tt, after)
      → after
        ≡ tombstoned
            (s.outbox ++ entries project actor_id break_glass)
            (s.audit ++ entries project actor_id break_glass)
  tombstone-ok break_glass after h =
      let (one, first, second) = tombstone-taken break_glass after h in
      ap (λ x. x.1) (sym h ∙ tombstone-works break_glass one first second)

module _ (is_uuid : String → Bool) (user_id : String) (s : Store) (sound : Sound s) where
  -- Who may delete a project: its owner, or, breaking the glass, an owner of its organization who has
  -- no membership of it.
  abbrev pub MayDelete : String → ProjectRow → List Entry → Type 0
  MayDelete project_id live written =
      ((row : ProjectMembershipRow) × (find_active_project_membership project_id user_id s
          ≡ some row)
        × (row.role ≡ ProjectRole.owner)
        × (written ≡ project_deleted live.id user_id ∷ []))
      ⊎ ((find_active_project_membership project_id user_id s ≡ none)
          × (is_org_owner (find_org live.org_id (load_from_store user_id s)) ≡ true)
          × (written ≡ project_deleted live.id user_id ∷ break_glass_used live.id user_id ∷ []))

  pub record Deleted (project_id : String) (after : Store) : Type 0 where
    pub live : ProjectRow
    pub found : find_live_project project_id s ≡ some live
    pub no_billing : is_billing (find_org live.org_id (load_from_store user_id s)) ≡ false
    pub written : List Entry
    pub by : MayDelete project_id live written
    pub logged : (after.outbox ≡ s.outbox ++ written) × (after.audit ≡ s.audit ++ written)
    pub gone :
        (other : String) (minimum : ProjectRole)
        → (later : Store) × (require_project is_uuid other project_id minimum after
            ≡ (err not_found, later))

  deleted :
      (audits : Entry → Bool) (now : ℕ) (project_id : String) (live : ProjectRow)
      (break_glass : Bool) (after : Store)
      → find_live_project project_id s ≡ some live
      → is_billing (find_org live.org_id (load_from_store user_id s)) ≡ false
      → MayDelete project_id live (entries live user_id break_glass)
      → tombstone_and_enqueue audits now user_id live break_glass
          (record s { cache = cache_after user_id s })
        ≡ (ok tt, after)
      → Deleted project_id after
  deleted audits now project_id live break_glass after found no_billing by h =
      let id = live-id is_uuid user_id s sound project_id live found in
      let before : Store = record s { cache = cache_after user_id s } in
      let done : Store =
        tombstoned audits now user_id live before (s.outbox ++ entries live user_id break_glass)
          (s.audit ++ entries live user_id break_glass) in
      let e : after ≡ done = tombstone-ok audits now user_id live before break_glass after h in
      let missing : find_live_project project_id done ≡ none =
        subst (λ p. find_live_project p done ≡ none) id
          (tombstoned-gone audits now user_id live before
            (s.outbox ++ entries live user_id break_glass)
            (s.audit ++ entries live user_id break_glass)) in
      subst (Deleted project_id) (sym e) (record {
        live = live;
        found = found;
        no_billing = no_billing;
        written = entries live user_id break_glass;
        by = by;
        logged = (refl, refl);
        gone = λ other minimum. not_live-not_found is_uuid other project_id minimum done missing;
      })

  delete_as-Deleted :
      (audits : Entry → Bool) (now : ℕ) (project_id : String) (live : ProjectRow) (after : Store)
      → find_live_project project_id s ≡ some live
      → delete_as audits now user_id live
          (find_org live.org_id (seen user_id s))
          (find_project project_id (seen user_id s))
          (record s { cache = cache_after user_id s })
        ≡ (ok tt, after)
      → Deleted project_id after
  unfolding delete_as
  delete_as-Deleted audits now project_id live after found =
      let seated = seen-seat is_uuid user_id project_id viewer s sound.coherent live found in
      let org = seen-org is_uuid user_id project_id viewer s sound.coherent live found in
      elim (Option-cases (find_active_project_membership project_id user_id s)) [
        | inl outside ↦
            rw (seated, org, outside)
              (elim (Bool-cases (is_billing (find_org live.org_id (load_from_store user_id s)))) [
                | inl bills ↦ rw bills (λ h. absurd (ground arith))
                | inr pays_not ↦
                    elim (Bool-cases
                      (is_org_owner (find_org live.org_id (load_from_store user_id s)))) [
                        | inr other ↦ rw (pays_not, other) (λ h. absurd (ground arith))
                        | inl owns ↦
                            rw (pays_not, owns)
                              (deleted audits now project_id live true after found pays_not
                                (inr (outside, owns, refl)))
                      ]
              ])
        | inr (row, active) ↦
            rw (seated, org, active)
              (elim (Bool-cases (is_billing (find_org live.org_id (load_from_store user_id s)))) [
                | inl bills ↦ rw bills (λ h. absurd (ground arith))
                | inr pays_not ↦ elim (Bool-cases (str_eq (project_role_text row.role) "OWNER")) [
                  | inr other ↦ rw (pays_not, other) (λ h. absurd (ground arith))
                  | inl owns ↦
                      rw (pays_not, owns)
                        (deleted audits now project_id live false after found pays_not
                          (inl (row, active, owner-text row.role owns, refl)))
                ]
              ])
      ]

  -- On a sound store, a deletion that succeeds was of a live project, by a user who is no billing
  -- member of its organization: its owner, or an owner of the organization without a membership of the
  -- project, whose breaking of the glass is then written to the outbox and to the audit log, beside the
  -- deletion. Afterwards the project is not found, by anyone, whatever he asks for.
  pub delete_project-Deleted :
      (audits : Entry → Bool) (now : ℕ) (project_id : String) (after : Store)
      → delete_project is_uuid audits now user_id project_id s ≡ (ok tt, after)
      → Deleted project_id after
  unfolding delete_project load_project_access
  delete_project-Deleted audits now project_id after = elim (Bool-cases (is_uuid project_id)) [
    | inr bad ↦ rw bad (λ h. absurd (ground arith))
    | inl uuid ↦ elim (Option-cases (find_live_project project_id s)) [
      | inl missing ↦ rw (uuid, missing) (λ h. absurd (ground arith))
      | inr (live, found) ↦
          rw (uuid, found, resolve-eq user_id s)
            (delete_as-Deleted audits now project_id live after found)
    ]
  ]
