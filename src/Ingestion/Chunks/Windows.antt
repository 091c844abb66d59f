-- ===== src/Ingestion/Chunks/Windows.antt =====
-- The windows of an oversized block.
use dhund_research_ai.Base.{
  ℕ, zero, suc, ◌+◌, ◌-◌, ◌≤◌, ◌<◌, ◌≡◌, refl, ◌∙◌, inl, inr, false, some, List, [], ◌∷◌, ◌++◌,
  arith, ltb, ◌==◌, length, take, drop, Option-cases, Bool-cases, ltb→lt, min, subst, drop-drop,
  take-append-take, take-length,
}
use dhund_research_ai.Ingestion.Chunks.{
  Text, CharSpan, slice, last_space, break_after, window_end, split_from, split_oversized_block,
}

last_space-le : (text : Text) (limit last : ℕ) → last_space text limit ≡ some last → last ≤ limit
unfolding last_space
last_space-le text zero last h = ground arith
last_space-le text (suc i) last h = ground (arith, last_space-le text i last)

break_after_bounds :
    (text : Text) (start end : ℕ)
    → start < end
    → (start < break_after start end (last_space text end))
      × (break_after start end (last_space text end) ≤ end)
break_after_bounds text start end h = elim (Option-cases (last_space text end)) [
  | inl missing ↦ rw missing (h, omega arith)
  | inr (last, found) ↦ rw found (ground (arith, last_space-le text end last found))
]

window_end_bounds :
    (text : Text) (start : ℕ)
    → start < length text
    → (start < window_end text start)
      × (window_end text start ≤ start + 1600)
      × (window_end text start ≤ length text)
unfolding window_end
window_end_bounds text start h =
    let end : ℕ = min (start + 1600) (length text) in
    let broken = break_after_bounds text start end (omega arith) in ground (arith, broken)

-- The spans follow one another from `from` to `to`, and each holds 1 to 1600 units.
abbrev pub Tiles : ℕ → ℕ → List CharSpan → Type 0
Tiles from to [] = from ≡ to
Tiles from to (s ∷ ss) =
    (s.start ≡ from) × (from < s.end) × (s.end ≤ from + 1600) × Tiles s.end to ss

split_from-Tiles :
    (fuel : ℕ) (text : Text) (start : ℕ)
    → start ≤ length text
    → length text < start + fuel
    → Tiles start (length text) (split_from fuel text start)
unfolding split_from
split_from-Tiles zero text start h f = absurd (omega arith)
split_from-Tiles (suc fuel) text start h f = elim (Bool-cases (ltb start (length text))) [
  | inl inside ↦
      let (grows, short, fits) = window_end_bounds text start (ltb→lt _ _ inside) in
      let moved : (window_end text start == start) ≡ false = ground arith in
      rw (inside, moved)
        (refl, grows, short, split_from-Tiles fuel text (window_end text start) fits (omega arith))
  | inr outside ↦ rw outside (ground arith)
]

-- The windows of a block follow one another without gap or overlap from its first unit to its last,
-- and each holds at least one unit and at most 1600: the loop ends, and no fuel is missing.
pub split_oversized_block-Tiles : (text : Text) → Tiles 0 (length text) (split_oversized_block text)
unfolding split_oversized_block
split_oversized_block-Tiles text =
    split_from-Tiles (suc (length text)) text 0 (omega arith) (omega arith)

slice-slice :
    (text : Text) (a b c : ℕ) → a ≤ b → b ≤ c → slice text a b ++ slice text b c ≡ slice text a c
slice-slice text a b c h k =
    let first : (b - a) + (c - b) ≡ c - a = omega arith in
    let second : a + (b - a) ≡ b = omega arith in
    subst (λ n. take (b - a) (drop a text) ++ take (c - b) (drop n text) ≡ slice text a c) second
      (subst (λ l. take (b - a) (drop a text) ++ take (c - b) l ≡ slice text a c)
        (drop-drop a (b - a) text)
        (subst
          (λ n.
            take (b - a) (drop a text) ++ take (c - b) (drop (b - a) (drop a text))
            ≡ take n (drop a text))
          first (take-append-take (b - a) (c - b) (drop a text))))

-- The texts of the windows, one after the other.
abbrev pub windows_text : Text → List CharSpan → Text
windows_text text [] = []
windows_text text (s ∷ ss) = slice text s.start s.end ++ windows_text text ss

Tiles-le : (from to : ℕ) (ss : List CharSpan) → Tiles from to ss → from ≤ to
Tiles-le from to [] t = omega arith
Tiles-le from to (s ∷ ss) t = omega (arith, Tiles-le s.end to ss t.3)

Tiles-text :
    (text : Text) (from to : ℕ) (ss : List CharSpan)
    → Tiles from to ss
    → windows_text text ss ≡ slice text from to
Tiles-text text from to [] t = let e : to - from ≡ 0 = omega arith in rw e
Tiles-text text from to (s ∷ ss) t =
    let (starts, grows, short, rest) = t in
    rw (starts, Tiles-text text s.end to ss rest)
      (slice-slice text from s.end to (omega arith) (Tiles-le s.end to ss rest))

pub whole : (text : Text) → slice text 0 (length text) ≡ text
whole text = let e : length text - 0 ≡ length text = omega arith in rw (e, take-length text)

-- So nothing of an oversized block is lost or repeated: its windows spell its text.
pub windows_text-split : (text : Text) → windows_text text (split_oversized_block text) ≡ text
windows_text-split text =
    Tiles-text text 0 (length text) (split_oversized_block text) (split_oversized_block-Tiles text)
    ∙ whole text
