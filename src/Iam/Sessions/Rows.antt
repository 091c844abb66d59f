-- ===== src/Iam/Sessions/Rows.antt =====
-- Reading a row after an update.
use dhund_research_ai.L0.Tables.{find_row, update_many, found-any}
use dhund_research_ai.Iam.Sessions.{update_row}
use dhund_research_ai.Base.{String, List, ◌≡◌, some, ok, str_eq, refl}

module _ {ℓ} {A : Type ℓ} (key : A → String) where
  -- An update of a row that is there succeeds.
  pub update_row-found :
      (id : String) (change : A → A) (rows : List A) (row : A)
      → find_row key id rows ≡ some row
      → update_row key id change rows ≡ ok (update_many (λ row. str_eq (key row) id) change rows)
  unfolding update_row
  update_row-found id change rows row h = rw (found-any key id rows row h) refl
