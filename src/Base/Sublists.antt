-- ===== src/Base/Sublists.antt =====
-- Lists that leave out elements of another and keep its order.
use mathlib.Core.List.{Sublistᴰ, List, [], ◌∷◌, map}
use mathlib.Core.Path.{refl, ap, subst, sym}
use Prim.Native.Nat.{ℕ, zero, suc}
use mathlib.Core.Bool.{Bool, true}
use mathlib.Core.Logic.{inl, inr}
use mathlib.Core.Path.{◌≡◌}
use dhund_research_ai.Base.Tests.{Bool-cases}
use dhund_research_ai.Base.Lists.{All, filter, take}
use dhund_research_ai.Base.Sort.{SortedBy}

module _ {ℓ} {A : Type ℓ} where
  pub sub-nil : (xs : List A) → Sublistᴰ [] xs
  sub-nil [] = Sublistᴰ.slnil
  sub-nil (x ∷ xs) = Sublistᴰ.cons (sub-nil xs)

  pub sub-take : (n : ℕ) (xs : List A) → Sublistᴰ (take n xs) xs
  sub-take zero xs = sub-nil xs
  sub-take (suc n) [] = Sublistᴰ.slnil
  sub-take (suc n) (x ∷ xs) = Sublistᴰ.cons-cons refl (sub-take n xs)

  pub sub-filter : (p : A → Bool) (xs : List A) → Sublistᴰ (filter p xs) xs
  sub-filter p [] = Sublistᴰ.slnil
  sub-filter p (x ∷ xs) = elim (Bool-cases (p x)) [
    | inl pass ↦ rw pass (Sublistᴰ.cons-cons refl (sub-filter p xs))
    | inr fail ↦ rw fail (Sublistᴰ.cons (sub-filter p xs))
  ]

  pub sub-map {κ} :
      {B : Type κ} (f : A → B) {xs ys : List A} → Sublistᴰ xs ys → Sublistᴰ (map f xs) (map f ys)
  sub-map f Sublistᴰ.slnil = Sublistᴰ.slnil
  sub-map f (Sublistᴰ.cons s) = Sublistᴰ.cons (sub-map f s)
  sub-map f (Sublistᴰ.cons-cons e s) = Sublistᴰ.cons-cons (ap f e) (sub-map f s)

  pub All-sub {κ} : (P : A → Type κ) {xs ys : List A} → Sublistᴰ xs ys → All P ys → All P xs
  All-sub P Sublistᴰ.slnil h = tt
  All-sub P (Sublistᴰ.cons s) h = All-sub P s h.1
  All-sub P (Sublistᴰ.cons-cons e s) h = (subst P (sym e) h.0, All-sub P s h.1)

  pub SortedBy-sub :
      (le : A → A → Bool) {xs ys : List A} → Sublistᴰ xs ys → SortedBy le ys → SortedBy le xs
  SortedBy-sub le Sublistᴰ.slnil h = tt
  SortedBy-sub le (Sublistᴰ.cons s) h = SortedBy-sub le s h.1
  SortedBy-sub le (Sublistᴰ.cons-cons {l₁ = rest} e s) h =
      (subst (λ z. All (λ y. le z y ≡ true) rest) (sym e) (All-sub _ s h.0), SortedBy-sub le s h.1)
