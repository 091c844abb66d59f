-- ===== src/Projects/Tenancy/Members.antt =====
-- The table of memberships after a grant, a change of a role and a revocation.
use dhund_research_ai.Platform.Roles.{ProjectRole}
use dhund_research_ai.L0.Tables.Updates.{
  count-update_le, find-some, find-unconcerned, count-none, find-append, sole, count-append,
  find-kept, find-emptied,
}
use dhund_research_ai.L0.Tables.{update_many, is_null}
use dhund_research_ai.Projects.Tenancy.{
  ProjectMembershipRow, is_active_member, is_active_id, set_revoked, set_role,
}
use dhund_research_ai.Base.{
  List, String, str_eq, any, length, Bool, filter, ◌≡◌, false, ◌≤◌, true, find, ◌++◌, some, ◌∷◌, [],
  All, arith, Bool-cases, str_eq-flip, Option-cases, inl, All-map, inr, eq_iff, subst, eq_refl, ℕ,
  refl, none,
}

abbrev pub has_id : String → ProjectMembershipRow → Bool
has_id id row = str_eq row.id id

-- No two rows share an id, and a user has at most one active row of a project.
abbrev pub FewRows : List ProjectMembershipRow → Type 0
FewRows rows =
    ((id : String) → length (filter (has_id id) rows) ≤ 1)
    × ((project_id user_id : String)
        → length (filter (is_active_member project_id user_id) rows) ≤ 1)

pub append-FewRows :
    (rows : List ProjectMembershipRow) (row : ProjectMembershipRow)
    → FewRows rows
    → any (has_id row.id) rows ≡ false
    → any (is_active_member row.project_id row.user_id) rows ≡ false
    → FewRows (rows ++ (row ∷ []))
append-FewRows rows row h fresh free = (
  λ id. elim (Bool-cases (str_eq row.id id)) [
    | inl same ↦
        let none_yet = count-none (has_id row.id) rows fresh in
        let e : row.id ≡ id = (eq_iff row.id id).0 same in
        subst (λ k. length (filter (has_id k) (rows ++ (row ∷ []))) ≤ 1) e
          (ground (arith, count-append (has_id row.id) rows row, eq_refl row.id))
    | inr other ↦ ground (arith, count-append (has_id id) rows row, h.0 id)
  ],
  λ project_id user_id. elim (Bool-cases (is_active_member project_id user_id row)) [
    | inl same ↦
        let p : row.project_id ≡ project_id = (eq_iff row.project_id project_id).0 (ground arith) in
        let u : row.user_id ≡ user_id = (eq_iff row.user_id user_id).0 (ground arith) in
        let none_yet : length (filter (is_active_member project_id user_id) rows) ≡ 0 =
          rw⁻¹ (p, u) (count-none (is_active_member row.project_id row.user_id) rows free) in
        ground (arith, count-append (is_active_member project_id user_id) rows row)
    | inr other ↦
        ground (
          arith,
          count-append (is_active_member project_id user_id) rows row,
          h.1 project_id user_id,
        )
  ],
)

pub append-others :
    (rows : List ProjectMembershipRow) (row : ProjectMembershipRow) (project_id other : String)
    → str_eq other row.user_id ≡ false
    → find (is_active_member project_id other) (rows ++ (row ∷ []))
      ≡ find (is_active_member project_id other) rows
append-others rows row project_id other apart =
    let miss : is_active_member project_id other row ≡ false =
      ground (arith, str_eq-flip row.user_id other apart) in
    elim (Option-cases (find (is_active_member project_id other) rows)) [
      | inl outside ↦ ground (arith, find-append (is_active_member project_id other) rows row)
      | inr (seated, there) ↦
          ground (arith, find-append (is_active_member project_id other) rows row)
    ]

-- A change of the rows of an id that keeps what they are of.
module _ (membership_id : String) (where_row : ProjectMembershipRow → Bool)
    (change : ProjectMembershipRow → ProjectMembershipRow)
    (by_id : (row : ProjectMembershipRow) → where_row row ≡ true → has_id membership_id row ≡ true)
    (rows : List ProjectMembershipRow) (few : FewRows rows) where
  pub update-FewRows :
      ((row : ProjectMembershipRow) → (change row).id ≡ row.id)
      → ((row : ProjectMembershipRow) (project_id user_id : String)
          → is_active_member project_id user_id row ≡ false
          → is_active_member project_id user_id (change row) ≡ false)
      → FewRows (update_many where_row change rows)
  update-FewRows same_id no_more = (
    λ id.
        let fewer =
          count-update_le (has_id id) where_row change (λ row miss. rw (same_id row) miss) rows in
        ground (arith, few.0 id),
    λ project_id user_id.
        let fewer =
          count-update_le (is_active_member project_id user_id) where_row change
            (λ row. no_more row project_id user_id) rows in
        ground (arith, few.1 project_id user_id),
  )

  -- The row that is found is the only one that is changed.
  pub only-row :
      (row : ProjectMembershipRow)
      → find (is_active_id membership_id) rows ≡ some row
      → All (λ r. where_row r ≡ true → r ≡ row) rows
  only-row row found =
      let active = find-some (is_active_id membership_id) rows row found in
      All-map rows (λ r is hit. is (by_id r hit))
        (sole (has_id membership_id) (is_active_id membership_id) rows row (few.0 membership_id)
          found (ground arith))

  pub update-others :
      (row : ProjectMembershipRow) (project_id other : String)
      → find (is_active_id membership_id) rows ≡ some row
      → (change row).user_id ≡ row.user_id
      → str_eq other row.user_id ≡ false
      → find (is_active_member project_id other) (update_many where_row change rows)
        ≡ find (is_active_member project_id other) rows
  update-others row project_id other found keeps apart =
      let miss : is_active_member project_id other row ≡ false =
        ground (arith, str_eq-flip row.user_id other apart) in
      let miss_after : is_active_member project_id other (change row) ≡ false =
        ground (arith, str_eq-flip row.user_id other apart) in
      find-unconcerned (is_active_member project_id other) where_row change rows (
        All-map rows (λ r same hit. let e = same hit in (rw e miss, rw e miss_after))
          (only-row row found))

module _ (membership_id : String) (rows : List ProjectMembershipRow) (row : ProjectMembershipRow)
    (found : find (is_active_id membership_id) rows ≡ some row) where
  abbrev pub rows_with_role : ProjectRole → List ProjectMembershipRow
  rows_with_role role = update_many (is_active_id membership_id) (set_role role) rows

  abbrev pub rows_without : ℕ → List ProjectMembershipRow
  rows_without now = update_many (has_id membership_id) (set_revoked now) rows

  pub found-with_role :
      (role : ProjectRole)
      → find (is_active_id membership_id) (rows_with_role role) ≡ some (set_role role row)
  unfolding set_role
  found-with_role role =
      let active = find-some (is_active_id membership_id) rows row found in
      let kept =
        find-kept (is_active_id membership_id) (is_active_id membership_id) (set_role role)
          (λ r. refl) rows in
      ground arith

  pub with_role-FewRows : (role : ProjectRole) → FewRows rows → FewRows (rows_with_role role)
  unfolding set_role
  with_role-FewRows role few =
      update-FewRows membership_id (is_active_id membership_id) (set_role role)
        (λ r hit. ground arith) rows few (λ r. refl) (λ r project_id user_id miss. miss)

  pub with_role-others :
      (role : ProjectRole) (few : FewRows rows) (project_id other : String)
      → str_eq other row.user_id ≡ false
      → find (is_active_member project_id other) (rows_with_role role)
        ≡ find (is_active_member project_id other) rows
  unfolding set_role
  with_role-others role few project_id other =
      update-others membership_id (is_active_id membership_id) (set_role role)
        (λ r hit. ground arith) rows few row project_id other found refl

  pub without-FewRows : (now : ℕ) → FewRows rows → FewRows (rows_without now)
  unfolding set_revoked is_null
  without-FewRows now few =
      update-FewRows membership_id (has_id membership_id) (set_revoked now) (λ r hit. hit) rows few
        (λ r. refl) (λ r project_id user_id miss. ground arith)

  pub without-others :
      (now : ℕ) (few : FewRows rows) (project_id other : String)
      → str_eq other row.user_id ≡ false
      → find (is_active_member project_id other) (rows_without now)
        ≡ find (is_active_member project_id other) rows
  unfolding set_revoked
  without-others now few project_id other =
      update-others membership_id (has_id membership_id) (set_revoked now) (λ r hit. hit) rows few
        row project_id other found refl

  -- After the row is revoked, its user has no active membership of its project.
  pub without-none :
      (now : ℕ)
      → FewRows rows
      → find (is_active_member row.project_id row.user_id) (rows_without now) ≡ none
  unfolding set_revoked is_null
  without-none now few =
      let active = find-some (is_active_id membership_id) rows row found in
      let seated : is_active_member row.project_id row.user_id row ≡ true =
        ground (arith, eq_refl row.project_id, eq_refl row.user_id) in
      find-emptied (is_active_member row.project_id row.user_id) (has_id membership_id)
        (set_revoked now) rows
        (All-map rows (λ r same hit. let e = same hit in rw e (ground arith))
          (sole (is_active_member row.project_id row.user_id) (is_active_id membership_id) rows row
            (few.1 row.project_id row.user_id) found seated))
        (λ r. ground arith)
