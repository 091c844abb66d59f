-- ===== src/Base/Unique.antt =====
-- Keeping the first of the elements that share a key, as a loop over a `Set` of the keys seen.
use mathlib.Core.Path.{◌≡◌, refl, subst, sym, ap}
use mathlib.Core.Bool.{Bool, true, false, ◌||◌}
use mathlib.Core.Logic.{inl, inr, ◌↔◌, ∥∥₁_elim}
use mathlib.Core.List.{
  List, [], ◌∷◌, map, Mem, Memᴰ, Nodup, Nodup-nil, Nodup-cons, mem-cons_self, mem-cons_of_mem,
  not-mem-nil, eq-or-mem_of_mem-cons,
}
use mathlib.Core.Logic.Or
use native.Mathlib.Omega.{arith}
use Prim.Native.String.{String}
use text.Mathlib.Text.{◌==◌ as str_eq}
use text.Mathlib.TextEquality.{eq_iff}
use text.Mathlib.TextPositions.{eq_refl}
use dhund_research_ai.Base.Tests.{if◌then◌else◌, Bool-cases}
use dhund_research_ai.Base.Lists.{All, any}

Bool-set : IsSet Bool
Bool-set = hlevel

pub str_eq-flip : (a b : String) → str_eq b a ≡ false → str_eq a b ≡ false
str_eq-flip a b other = elim (Bool-cases (str_eq a b)) [
  | inl same ↦ ground (arith, eq_refl b, ap (str_eq b) ((eq_iff a b).0 same))
  | inr differ ↦ differ
]

any-memᴰ : {x : String} {xs : List String} → Memᴰ x xs → any (str_eq x) xs ≡ true
any-memᴰ {x} (Memᴰ.head e) = ground (arith, eq_refl x, (eq_iff x _).1 e)
any-memᴰ (Memᴰ.tail m) = ground (arith, any-memᴰ m)

-- `xs.includes(x)`.
pub any-mem : (x : String) (xs : List String) → (any (str_eq x) xs ≡ true) ↔ Mem x xs
any-mem x [] = (λ h. cc, λ m. absurd (not-mem-nil m))
any-mem x (y ∷ ys) = (
  λ h. elim (Bool-cases (str_eq x y)) [
    | inl same ↦ subst (λ z. Mem x (z ∷ ys)) ((eq_iff x y).0 same) mem-cons_self
    | inr other ↦ mem-cons_of_mem y ((any-mem x ys).0 (ground arith))
  ],
  λ m. ∥∥₁_elim m (Bool-set _ _) any-memᴰ,
)

module _ {ℓ} {A : Type ℓ} (key : A → String) where
  unfoldable pub unique_by : List String → List A → List A
  unique_by seen [] = []
  unique_by seen (x ∷ xs) =
      let fresh = unique_by (key x ∷ seen) xs in
      let known = unique_by seen xs in if any (str_eq (key x)) seen then known else x ∷ fresh

  unique_by-Nodup :
      (seen : List String) (xs : List A)
      → Nodup (map key (unique_by seen xs))
        × ((k : String) → Mem k seen → ¬ Mem k (map key (unique_by seen xs)))
  unfolding unique_by
  unique_by-Nodup seen [] = (Nodup-nil, λ k m. not-mem-nil)
  unique_by-Nodup seen (x ∷ xs) = elim (Bool-cases (any (str_eq (key x)) seen)) [
    | inl known ↦ rw known (unique_by-Nodup seen xs)
    | inr fresh ↦
        let (distinct, apart) = unique_by-Nodup (key x ∷ seen) xs in
        let unseen : ¬ Mem (key x) seen = λ m. cc ((any-mem (key x) seen).1 m) in
        rw fresh (
          Nodup-cons.1 (apart (key x) mem-cons_self, distinct),
          λ k m n.
              Or.elim (λ a. absurd a) (eq-or-mem_of_mem-cons n)
                (λ e. unseen (subst (λ z. Mem z seen) e m)) (apart k (mem-cons_of_mem (key x) m)),
        )
  ]

  -- No two of the elements that are kept share a key.
  pub Nodup-unique_by : (xs : List A) → Nodup (map key (unique_by [] xs))
  Nodup-unique_by xs = (unique_by-Nodup [] xs).0

  pub unique_by-All {κ} :
      (P : A → Type κ) (seen : List String) (xs : List A) → All P xs → All P (unique_by seen xs)
  unfolding unique_by
  unique_by-All P seen [] h = h
  unique_by-All P seen (x ∷ xs) h = elim (Bool-cases (any (str_eq (key x)) seen)) [
    | inl known ↦ rw known (unique_by-All P seen xs h.1)
    | inr fresh ↦ rw fresh (h.0, unique_by-All P (key x ∷ seen) xs h.1)
  ]

  seen-same :
      (k j : String) (seen : List String)
      → str_eq k j ≡ true
      → any (str_eq j) seen ≡ true
      → any (str_eq k) seen ≡ true
  seen-same k j seen e h = subst (λ z. any (str_eq z) seen ≡ true) (sym ((eq_iff k j).0 e)) h

  unique_by-keys :
      (k : String) (seen : List String) (xs : List A)
      → (any (str_eq k) seen || any (str_eq k) (map key (unique_by seen xs)))
        ≡ (any (str_eq k) seen || any (str_eq k) (map key xs))
  unfolding unique_by
  unique_by-keys k seen [] = refl
  unique_by-keys k seen (x ∷ xs) = elim (Bool-cases (any (str_eq (key x)) seen)) [
    | inl known ↦ rw known (ground (arith, unique_by-keys k seen xs, seen-same k (key x) seen))
    | inr fresh ↦ rw fresh (ground (arith, unique_by-keys k (key x ∷ seen) xs))
  ]

  -- No key is lost.
  pub any-unique_by :
      (k : String) (xs : List A)
      → any (str_eq k) (map key (unique_by [] xs)) ≡ any (str_eq k) (map key xs)
  any-unique_by k xs = unique_by-keys k [] xs
