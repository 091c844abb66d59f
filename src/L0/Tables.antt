-- ===== src/L0/Tables.antt =====
-- Tables of rows, as the Prisma client of src/l0/adapters/prisma reads and writes them: a list in the
-- order in which rows were created.
pub mod Updates
use dhund_research_ai.Base.{
  String, Option, Bool, some, if◌then◌else◌, List, ◌≡◌, any, none, Bool-cases, ◌∷◌, inl, str_eq,
  subst, inr, true, eq_iff, refl, [], map, find, false,
}

-- `value === null`.
unfoldable pub is_null {ℓ} : {A : Type ℓ} → Option A → Bool
is_null none = true
is_null (some _) = false

-- `findUnique` by id.
unfoldable pub find_row {ℓ} : {A : Type ℓ} → (A → String) → String → List A → Option A
find_row key id rows = find (λ row. str_eq (key row) id) rows

-- `updateMany`.
unfoldable pub update_many {ℓ} : {A : Type ℓ} → (A → Bool) → (A → A) → List A → List A
update_many where_row change rows = map (λ row. if where_row row then change row else row) rows

module _ {ℓ} {A : Type ℓ} where
  -- The row, changed where the condition holds.
  abbrev pub changed : (A → Bool) → (A → A) → A → A
  changed where_row change row = if where_row row then change row else row

  abbrev pub option_map : (A → A) → Option A → Option A
  option_map f none = none
  option_map f (some x) = some (f x)

module _ {ℓ} {A : Type ℓ} (key : A → String) where
  module _ (where_row : A → Bool) (change : A → A)
      (keeps : (row : A) → key (change row) ≡ key row) where
    changed-key : (row : A) → key (changed where_row change row) ≡ key row
    changed-key row = elim (Bool-cases (where_row row)) [
      | inl hit ↦ rw hit (keeps row)
      | inr miss ↦ rw miss refl
    ]

    pub find_row-update_many :
        (id : String) (rows : List A)
        → find_row key id (update_many where_row change rows)
          ≡ option_map (changed where_row change) (find_row key id rows)
    unfolding find_row update_many
    find_row-update_many id [] = refl
    find_row-update_many id (row ∷ rows) = elim (Bool-cases (str_eq (key row) id)) [
      | inl same ↦ rw (changed-key row, same) refl
      | inr other ↦ rw (changed-key row, other) (find_row-update_many id rows)
    ]

  pub find_row-key :
      (id : String) (rows : List A) (row : A) → find_row key id rows ≡ some row → key row ≡ id
  unfolding find_row
  find_row-key id [] row h = cc
  find_row-key id (first ∷ rows) row h = elim (Bool-cases (str_eq (key first) id)) [
    | inl same ↦
        let found : some first ≡ some row = rw same at h in
        let e : first ≡ row = cc in subst (λ r. key r ≡ id) e ((eq_iff (key first) id).0 same)
    | inr other ↦ find_row-key id rows row (rw other at h)
  ]

  pub found-any :
      (id : String) (rows : List A) (row : A)
      → find_row key id rows ≡ some row
      → any (λ row. str_eq (key row) id) rows ≡ true
  unfolding find_row
  found-any id [] row h = cc
  found-any id (first ∷ rows) row h = elim (Bool-cases (str_eq (key first) id)) [
    | inl same ↦ rw same refl
    | inr other ↦ rw other (found-any id rows row (rw other at h))
  ]
