-- ===== src/Projects/Tenancy/Granted.antt =====
-- What a grant and a change of a role have done when they succeed.
use dhund_research_ai.Projects.Tenancy.Members.{append-others}
use dhund_research_ai.Platform.Roles.Order.{project_role_at_least-text}
use dhund_research_ai.L0.Tables.Updates.{find-none, find-append}
use dhund_research_ai.Projects.Tenancy.Outcomes.{live-id, let_in}
use dhund_research_ai.Projects.Tenancy.Requests.{require_project-cases}
use dhund_research_ai.Platform.Access.{AccessContext}
use dhund_research_ai.L0.Tables.{is_null}
use dhund_research_ai.Projects.Tenancy.Access.{LetsIn}
use dhund_research_ai.Projects.Tenancy.Authorizer.{invalidate_access_context}
use dhund_research_ai.Projects.Tenancy.Service.{grant_membership}
use dhund_research_ai.Platform.Roles.{
  ProjectRole, can_assign_project_role, project_rank, project_role_text,
}
use dhund_research_ai.Projects.Tenancy.Invariant.{Sound}
use dhund_research_ai.Projects.Tenancy.{
  Store, find_active_project_membership, ProjectRow, ProjectMembershipRow,
  insert_project_membership, find_active_org_membership, OrgMembershipRow, Entry, find_live_project,
  is_active_member, append_audit, membership_added,
}
use dhund_research_ai.Base.{
  String, Bool, none, ◌≤◌, ◌≡◌, List, ok, some, str_eq, false, arith, Bool-cases, inr, true, any,
  inl, Option-cases, ◌++◌, ok-injective, ap, ◌∷◌, [], subst, find, eq_iff, eq_refl, refl,
}

module _ (is_uuid : String → Bool) (user_id : String) (s : Store) (sound : Sound s) where
  -- What a grant that succeeds has done: an administrator of the project gave a member of its
  -- organization a role no higher than his own, and nobody else anything.
  pub record Granted (project_id target_id : String) (role : ProjectRole)
      (row : ProjectMembershipRow) (after : Store) : Type 0 where
    pub live : ProjectRow
    pub actor : ProjectRole
    pub by_admin : LetsIn is_uuid user_id project_id ProjectRole.admin s live actor
    pub not_above : project_rank role ≤ project_rank actor
    pub seat : OrgMembershipRow
    pub of_org : find_active_org_membership live.org_id target_id s ≡ some seat
    pub had_none : find_active_project_membership project_id target_id s ≡ none
    pub given_role : row.role ≡ role
    pub has_row : find_active_project_membership project_id target_id after ≡ some row
    pub others :
        (project other : String)
        → str_eq other target_id ≡ false
        → find_active_project_membership project other after
          ≡ find_active_project_membership project other s

  unfoldable new_row : String → ProjectRow → String → ProjectRole → ProjectMembershipRow
  new_row membership_id live target_id role = record {
    id = membership_id;
    project_id = live.id;
    user_id = target_id;
    role = role;
    revoked_at = none;
  }

  granted :
      (membership_id project_id target_id : String) (role : ProjectRole) (live : ProjectRow)
      (actor : ProjectRole) (seat : OrgMembershipRow) (cache : List AccessContext)
      (outbox audit : List Entry)
      → find_live_project project_id s ≡ some live
      → LetsIn is_uuid user_id project_id ProjectRole.admin s live actor
      → can_assign_project_role (project_role_text actor) role ≡ true
      → find_active_org_membership live.org_id target_id s ≡ some seat
      → any (is_active_member live.id target_id) s.memberships ≡ false
      → Granted project_id target_id role (new_row membership_id live target_id role) (record s {
        memberships = s.memberships ++ (new_row membership_id live target_id role ∷ []);
        cache = cache;
        outbox = outbox;
        audit = audit;
      })
  unfolding find_active_project_membership can_assign_project_role new_row is_null
  granted membership_id project_id target_id role live actor seat cache outbox audit found by_admin
        may there free =
      let id = live-id is_uuid user_id s sound project_id live found in
      let row = new_row membership_id live target_id role in
      let none_before : find (is_active_member project_id target_id) s.memberships ≡ none =
        subst (λ p. find (is_active_member p target_id) s.memberships ≡ none) id
          (find-none (is_active_member live.id target_id) s.memberships free) in
      let appended = find-append (is_active_member project_id target_id) s.memberships row in
      let seated : is_active_member project_id target_id row ≡ true =
        ground (arith, (eq_iff live.id project_id).1 id, eq_refl target_id) in
      record {
        live = live;
        actor = actor;
        by_admin = by_admin;
        not_above = ground (arith, project_role_at_least-text actor role);
        seat = seat;
        of_org = there;
        had_none = none_before;
        given_role = refl;
        has_row = rw (appended, none_before, seated) refl;
        others = λ project other. append-others s.memberships row project other;
      }

  -- On a sound store, a grant that succeeds was made by a user who is an administrator of the live
  -- project or more, of a role no higher than his own, to an active member of the project's
  -- organization without an active membership of the project. The target then has exactly that role in
  -- the project, and the memberships of all others are as they were.
  pub grant_membership-Granted :
      (audits : Entry → Bool) (membership_id project_id target_id : String) (role : ProjectRole)
      (row : ProjectMembershipRow) (after : Store)
      → grant_membership is_uuid audits membership_id user_id project_id target_id role s
        ≡ (ok row, after)
      → Granted project_id target_id role row after
  unfolding append_audit grant_membership insert_project_membership invalidate_access_context
      new_row find_active_org_membership
  grant_membership-Granted audits membership_id project_id target_id role row after =
      require_project-cases is_uuid user_id s
        (λ outcome. outcome ≡ (ok row, after) → Granted project_id target_id role row after)
        project_id ProjectRole.admin _ (λ e h. absurd (ground arith)) (λ e h. absurd (ground arith))
        (λ live actor uuid found allowed.
          elim (Bool-cases (can_assign_project_role (project_role_text actor) role)) [
            | inr above ↦ rw above (λ h. absurd (ground arith))
            | inl may ↦ elim (Option-cases (find_active_org_membership live.org_id target_id s)) [
              | inl stranger ↦ rw (may, stranger) (λ h. absurd (ground arith))
              | inr (seat, there) ↦
                  elim (Bool-cases (any (is_active_member live.id target_id) s.memberships)) [
                    | inl taken ↦ rw (may, there, taken) (λ h. absurd (ground arith))
                    | inr free ↦
                        elim (Bool-cases (audits (membership_added membership_id target_id))) [
                          | inr refused ↦
                              rw (may, there, free, refused) (λ h. absurd (ground arith))
                          | inl taken ↦
                              rw (may, there, free, taken)
                                (λ h.
                                  let e : new_row membership_id live target_id role ≡ row =
                                    ok-injective (ap (λ x. x.0) h) in
                                  subst (λ r. Granted project_id target_id role r after) e
                                    (subst (Granted project_id target_id role _) (ap (λ x. x.1) h) (
                                      granted membership_id project_id target_id role live actor
                                        seat _ _ _ found
                                        (let_in is_uuid user_id s sound project_id ProjectRole.admin
                                          live actor found allowed)
                                        may there free)))
                        ]
                  ]
            ]
          ])
