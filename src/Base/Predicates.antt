-- ===== src/Base/Predicates.antt =====
-- Predicates that hold of all of a list.
use Prim.Native.Nat.{suc}
use mathlib.Core.Path.{◌≡◌, refl, ap}
use mathlib.Core.Bool.{Bool, true}
use mathlib.Core.Logic.{inl, inr}
use mathlib.Core.List.{List, [], ◌∷◌, ◌++◌, map, Mem, mem-cons_self, mem-cons_of_mem}
use dhund_research_ai.Base.Tests.{Bool-cases}
use dhund_research_ai.Base.Lists.{All, length, filter}

module _ {ℓ κ} {A : Type ℓ} (p : A → Bool) (P : A → Type κ) where
  pub filter-All : (xs : List A) → All (λ x. p x ≡ true → P x) xs → All P (filter p xs)
  filter-All [] h = tt
  filter-All (x ∷ xs) h = elim (Bool-cases (p x)) [
    | inl pass ↦ rw pass (h.0 pass, filter-All xs h.1)
    | inr fail ↦ rw fail (filter-All xs h.1)
  ]

module _ {ℓ} {A : Type ℓ} where
  pub All-Mem : (xs ys : List A) → ((x : A) → Mem x ys → Mem x xs) → All (λ y. Mem y xs) ys
  All-Mem xs [] h = tt
  All-Mem xs (y ∷ ys) h = (h y mem-cons_self, All-Mem xs ys (λ x m. h x (mem-cons_of_mem y m)))

  pub All-of {κ} : {P : A → Type κ} (xs : List A) → ((x : A) → P x) → All P xs
  All-of [] h = tt
  All-of (x ∷ xs) h = (h x, All-of xs h)

  pub All-map {κ μ} :
      {P : A → Type κ} {Q : A → Type μ} (xs : List A) → ((x : A) → P x → Q x) → All P xs → All Q xs
  All-map [] f h = tt
  All-map (x ∷ xs) f h = (f x h.0, All-map xs f h.1)

  pub All-prefix {κ} : (P : A → Type κ) (xs ys : List A) → All P (xs ++ ys) → All P xs
  All-prefix P [] ys h = tt
  All-prefix P (x ∷ xs) ys h = (h.0, All-prefix P xs ys h.1)

  pub length-map {κ} : {B : Type κ} (f : A → B) (xs : List A) → length (map f xs) ≡ length xs
  length-map f [] = refl
  length-map f (x ∷ xs) = ap suc (length-map f xs)

  pub All-always {κ} : {P : A → Type κ} → ((x : A) → P x) → (xs : List A) → All P xs
  All-always f [] = tt
  All-always f (x ∷ xs) = (f x, All-always f xs)

  pub All-both {κ μ} :
      (P : A → Type κ) (Q : A → Type μ) (xs : List A)
      → All P xs
      → All Q xs
      → All (λ x. P x × Q x) xs
  All-both P Q [] h k = tt
  All-both P Q (x ∷ xs) h k = ((h.0, k.0), All-both P Q xs h.1 k.1)

  pub All-unmap {κ μ} :
      {B : Type κ} (f : A → B) (P : B → Type μ) (xs : List A)
      → All P (map f xs)
      → All (λ x. P (f x)) xs
  All-unmap f P [] h = tt
  All-unmap f P (x ∷ xs) h = (h.0, All-unmap f P xs h.1)
