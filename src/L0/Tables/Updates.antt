-- ===== src/L0/Tables/Updates.antt =====
-- Lookups in a table and the number of its rows of a kind, before and after an update or an insert.
use dhund_research_ai.L0.Tables.{update_many, option_map, changed}
use dhund_research_ai.Base.{
  Bool, List, length, ◌≡◌, find, any, All, ◌∷◌, true, false, none, filter, ◌++◌, some, arith, ◌≤◌,
  [], Bool-cases, inl, refl, ◌+◌, or_else, All-map, if◌then◌else◌, inr,
}

module _ {ℓ} {A : Type ℓ} (p : A → Bool) where
  pub find-some : (rows : List A) (x : A) → find p rows ≡ some x → p x ≡ true
  find-some [] x h = cc
  find-some (row ∷ rows) x h = ground (arith, find-some rows x)

  pub find-none : (rows : List A) → any p rows ≡ false → find p rows ≡ none
  find-none [] h = refl
  find-none (row ∷ rows) h = ground (arith, find-none rows)

  pub any-find : (rows : List A) → find p rows ≡ none → any p rows ≡ false
  any-find [] h = refl
  any-find (row ∷ rows) h = ground (arith, any-find rows)

  pub any-found : (rows : List A) (x : A) → find p rows ≡ some x → any p rows ≡ true
  any-found [] x h = cc
  any-found (row ∷ rows) x h = ground (arith, any-found rows x)

  pub find-append :
      (rows : List A) (row : A)
      → find p (rows ++ (row ∷ [])) ≡ or_else (find p rows) (if p row then some row else none)
  find-append [] row = refl
  find-append (first ∷ rows) row = elim (Bool-cases (p first)) [
    | inl hit ↦ rw hit refl
    | inr miss ↦ rw miss (find-append rows row)
  ]

  pub any-All : (rows : List A) → any p rows ≡ false → All (λ row. p row ≡ false) rows
  any-All [] h = tt
  any-All (row ∷ rows) h = (ground arith, any-All rows (ground arith))

  pub count-none : (rows : List A) → any p rows ≡ false → length (filter p rows) ≡ 0
  count-none [] h = refl
  count-none (row ∷ rows) h = ground (arith, count-none rows)

  pub count-append :
      (rows : List A) (row : A)
      → length (filter p (rows ++ (row ∷ []))) ≡ length (filter p rows) + (if p row then 1 else 0)
  count-append [] row = ground arith
  count-append (first ∷ rows) row = ground (arith, count-append rows row)

  count-All : (rows : List A) → length (filter p rows) ≡ 0 → All (λ row. p row ≡ false) rows
  count-All [] h = tt
  count-All (row ∷ rows) h = (ground arith, count-All rows (ground arith))

  module _ (q : A → Bool) where
    count-found :
        (rows : List A) (x : A) → find q rows ≡ some x → p x ≡ true → 1 ≤ length (filter p rows)
    count-found [] x h hit = cc
    count-found (row ∷ rows) x h hit = ground (arith, count-found rows x)

    -- Where at most one row satisfies `p`, and a row that is found does, it is the only one.
    pub sole :
        (rows : List A) (x : A)
        → length (filter p rows) ≤ 1
        → find q rows ≡ some x
        → p x ≡ true
        → All (λ row. p row ≡ true → row ≡ x) rows
    sole [] x few h hit = tt
    sole (row ∷ rows) x few h hit = elim (Bool-cases (q row)) [
      | inl here ↦
          let same : some row ≡ some x = rw here at h in
          let rest = count-All rows (ground arith) in (λ _. cc, All-map rows (λ r no yes. cc) rest)
      | inr there ↦
          let later : find q rows ≡ some x = rw there at h in
          let many = count-found rows x later hit in
          (λ yes. absurd (ground arith), sole rows x (ground arith) later hit)
    ]

    -- It is then also the one that a lookup by `p` finds.
    pub found-sole :
        (rows : List A) (x : A)
        → length (filter p rows) ≤ 1
        → find q rows ≡ some x
        → p x ≡ true
        → find p rows ≡ some x
    found-sole [] x few h hit = cc
    found-sole (row ∷ rows) x few h hit = elim (Bool-cases (q row)) [
      | inl here ↦ ground arith
      | inr there ↦
          let later : find q rows ≡ some x = rw there at h in
          let many = count-found rows x later hit in ground (arith, found-sole rows x)
    ]

-- No more elements satisfy the narrower of two tests.
pub filter-fewer {ℓ} :
    {A : Type ℓ} (p q : A → Bool)
    → ((x : A) → p x ≡ true → q x ≡ true)
    → (xs : List A) → length (filter p xs) ≤ length (filter q xs)
filter-fewer p q narrower [] = ground arith
filter-fewer p q narrower (x ∷ xs) = ground (arith, narrower x, filter-fewer p q narrower xs)

module _ {ℓ} {A : Type ℓ} (p where_row : A → Bool) (change : A → A) where
  -- A lookup that an update does not concern.
  pub find-unconcerned :
      (rows : List A)
      → All (λ row. where_row row ≡ true → (p row ≡ false) × (p (change row) ≡ false)) rows
      → find p (update_many where_row change rows) ≡ find p rows
  unfolding update_many
  find-unconcerned [] h = refl
  find-unconcerned (row ∷ rows) h = elim (Bool-cases (where_row row)) [
    | inl hit ↦ let (before, after) = h.0 hit in rw (hit, before, after) (find-unconcerned rows h.1)
    | inr miss ↦ rw miss (ground (arith, find-unconcerned rows h.1))
  ]

  -- A lookup whose rows the update changes so that they are not found.
  pub find-emptied :
      (rows : List A)
      → All (λ row. p row ≡ true → where_row row ≡ true) rows
      → ((row : A) → p (change row) ≡ false)
      → find p (update_many where_row change rows) ≡ none
  unfolding update_many
  find-emptied [] h gone = refl
  find-emptied (row ∷ rows) h gone = elim (Bool-cases (where_row row)) [
    | inl hit ↦ rw (hit, gone row) (find-emptied rows h.1 gone)
    | inr miss ↦ rw miss (ground (arith, h.0, find-emptied rows h.1 gone))
  ]

  -- A lookup that goes by what the update keeps.
  pub find-kept :
      ((row : A) → p (change row) ≡ p row)
      → (rows : List A)
      → find p (update_many where_row change rows)
        ≡ option_map (changed where_row change) (find p rows)
  unfolding update_many
  find-kept keeps [] = refl
  find-kept keeps (row ∷ rows) = elim (Bool-cases (where_row row)) [
    | inl hit ↦ ground (arith, keeps row, find-kept keeps rows)
    | inr miss ↦ ground (arith, find-kept keeps rows)
  ]

  pub any-kept :
      ((row : A) → p (change row) ≡ p row)
      → (rows : List A) → any p (update_many where_row change rows) ≡ any p rows
  unfolding update_many
  any-kept keeps [] = refl
  any-kept keeps (row ∷ rows) = elim (Bool-cases (where_row row)) [
    | inl hit ↦ rw (hit, keeps row, any-kept keeps rows) refl
    | inr miss ↦ rw (miss, any-kept keeps rows) refl
  ]

  -- No row comes to satisfy `p` by the update.
  pub count-update_le :
      ((row : A) → p row ≡ false → p (change row) ≡ false)
      → (rows : List A)
      → length (filter p (update_many where_row change rows)) ≤ length (filter p rows)
  unfolding update_many
  count-update_le keeps [] = ground arith
  count-update_le keeps (row ∷ rows) = elim (Bool-cases (where_row row)) [
    | inl hit ↦ ground (arith, keeps row, count-update_le keeps rows)
    | inr miss ↦ ground (arith, count-update_le keeps rows)
  ]
