-- ===== src/Base/Javascript.antt =====
-- What the code uses of the JavaScript runtime: floating-point numbers, of which it needs an order
-- and a few operations, collation, and texts as UTF-16.
use Prim.Native.Nat.{ℕ}
use Prim.Native.String.{String}
use mathlib.Core.Bool.{Bool, true, false}
use mathlib.Core.Path.{◌≡◌}
use native.Mathlib.Omega.{arith}
use dhund_research_ai.Base.Tests.{if◌then◌else◌}

pub record Runtime : Type 1 where
  pub Score : Type 0
  pub score_lt : Score → Score → Bool
  pub score_add : Score → Score → Score
  pub zero_score : Score
  -- `Number.isFinite(x)`.
  pub is_finite : Score → Bool
  -- `1 / n`.
  pub reciprocal : ℕ → Score
  -- `a.localeCompare(b) <= 0`.
  pub locale_le : String → String → Bool
  -- `text.length`.
  pub utf16_length : String → ℕ
  -- `${n}` for a whole number.
  pub decimal : ℕ → String

-- A sort by falling score, and by `next` where the scores are the same: `compare(a, b) <= 0`. Scores
-- are the same if neither is below the other, so that they are assumed not to be NaN.
module _ {ℓ} {A : Type ℓ} (js : Runtime) (score : A → js.Score) where
  abbrev pub by_score : (A → A → Bool) → A → A → Bool
  by_score next a b =
      if js.score_lt (score a) (score b)
      then false
      else if js.score_lt (score b) (score a)
      then true
      else next a b

-- `a.localeCompare(b) <= 0`, of what `id` reads.
abbrev pub by_id {ℓ} : {A : Type ℓ} (js : Runtime) → (A → String) → A → A → Bool
by_id js id a b = js.locale_le (id a) (id b)

-- What sorting relies on: scores are ordered up to a tie, and texts are collated by a total order.
pub record Ordered (js : Runtime) : Type 0 where
  pub lt_asym : (a b : js.Score) → js.score_lt a b ≡ true → js.score_lt b a ≡ false
  -- What is not below `b`, where `b` is not below `c`, is not below `c`.
  pub not-lt_trans :
      (a b c : js.Score)
      → js.score_lt a b ≡ false
      → js.score_lt b c ≡ false
      → js.score_lt a c ≡ false
  pub locale_total : (a b : String) → js.locale_le a b ≡ false → js.locale_le b a ≡ true
  pub locale_trans :
      (a b c : String) → js.locale_le a b ≡ true → js.locale_le b c ≡ true → js.locale_le a c ≡ true

module _ {ℓ} {A : Type ℓ} where
  abbrev pub Total : (A → A → Bool) → Type ℓ
  Total le = (a b : A) → le a b ≡ false → le b a ≡ true

  abbrev pub Transitive : (A → A → Bool) → Type ℓ
  Transitive le = (a b c : A) → le a b ≡ true → le b c ≡ true → le a c ≡ true

  pub by_id-Total : {js : Runtime} (o : Ordered js) (id : A → String) → Total (by_id js id)
  by_id-Total o id a b = o.locale_total (id a) (id b)

  pub by_id-Transitive :
      {js : Runtime} (o : Ordered js) (id : A → String) → Transitive (by_id js id)
  by_id-Transitive o id a b c = o.locale_trans (id a) (id b) (id c)

module _ {ℓ} {A : Type ℓ} {js : Runtime} (o : Ordered js) (score : A → js.Score)
    (next : A → A → Bool) where
  pub by_score-Total : Total next → Total (by_score js score next)
  by_score-Total total a b h =
      ground (arith, o.lt_asym (score a) (score b), o.lt_asym (score b) (score a), total a b)

  pub by_score-Transitive : Transitive next → Transitive (by_score js score next)
  by_score-Transitive trans a b c h k = ground (
    arith,
    o.lt_asym (score a) (score b),
    o.lt_asym (score b) (score c),
    o.not-lt_trans (score a) (score b) (score c),
    o.not-lt_trans (score c) (score b) (score a),
    o.not-lt_trans (score b) (score c) (score a),
    o.not-lt_trans (score b) (score a) (score c),
    o.not-lt_trans (score c) (score a) (score b),
    o.not-lt_trans (score a) (score c) (score b),
    trans a b c,
  )
