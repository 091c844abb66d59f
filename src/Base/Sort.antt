-- ===== src/Base/Sort.antt =====
-- `[...xs].sort(compare)`, which is stable: an insertion sort by `le a b`, which stands for
-- `compare(a, b) <= 0`.
use mathlib.Core.Path.{◌≡◌, refl, ap, ◌∙◌, subst}
use Prim.Native.Nat.{suc}
use native.Mathlib.Nat.{ℕ_set}
use mathlib.Core.HLevel.{×_prop, Unit-prop}
use mathlib.Core.Logic.{∥∥₁_elim}
use mathlib.Core.List.{Permᴰ}
use mathlib.Core.Bool.{Bool, true, false}
use mathlib.Core.Logic.{inl, inr}
use mathlib.Core.List.{List, [], ◌∷◌, ◌++◌, Perm, perm_middle}
use mathlib.Core.List.Perm
use dhund_research_ai.Base.Tests.{if◌then◌else◌, Bool-cases}
use dhund_research_ai.Base.Lists.{All, length}

module _ {ℓ} {A : Type ℓ} (le : A → A → Bool) where
  unfoldable pub insert_by : A → List A → List A
  insert_by x [] = x ∷ []
  insert_by x (y ∷ ys) = if le x y then x ∷ y ∷ ys else y ∷ insert_by x ys

  unfoldable pub sort_by : List A → List A
  unfolding insert_by
  sort_by [] = []
  sort_by (x ∷ xs) = insert_by x (sort_by xs)

  insert_by-perm : (x : A) (ys : List A) → Perm (insert_by x ys) (x ∷ ys)
  unfolding insert_by
  insert_by-perm x [] = Perm.refl (x ∷ [])
  insert_by-perm x (y ∷ ys) = elim (Bool-cases (le x y)) [
    | inl before ↦ rw before (Perm.refl (x ∷ y ∷ ys))
    | inr after ↦ rw after (Perm.trans (Perm.cons y (insert_by-perm x ys)) (Perm.swap x y ys))
  ]

  pub sort_by-perm : (xs : List A) → Perm (sort_by xs) xs
  unfolding sort_by
  sort_by-perm [] = Perm.nil
  sort_by-perm (x ∷ xs) = Perm.trans (insert_by-perm x (sort_by xs)) (Perm.cons x (sort_by-perm xs))

  module _ {κ} (P : A → Type κ) where
    insert_by-All : (x : A) (ys : List A) → P x → All P ys → All P (insert_by x ys)
    unfolding insert_by
    insert_by-All x [] p h = (p, h)
    insert_by-All x (y ∷ ys) p h = elim (Bool-cases (le x y)) [
      | inl before ↦ rw before (p, h)
      | inr after ↦ rw after (h.0, insert_by-All x ys p h.1)
    ]

    pub sort_by-All : (xs : List A) → All P xs → All P (sort_by xs)
    unfolding sort_by
    sort_by-All [] h = h
    sort_by-All (x ∷ xs) h = insert_by-All x (sort_by xs) h.0 (sort_by-All xs h.1)

  -- Each element may stand before all that follow it.
  abbrev pub SortedBy : List A → Type 0
  SortedBy [] = Unit
  SortedBy (x ∷ xs) = All (λ y. le x y ≡ true) xs × SortedBy xs

  module _ (total : (x y : A) → le x y ≡ false → le y x ≡ true)
      (trans : (x y z : A) → le x y ≡ true → le y z ≡ true → le x z ≡ true) where
    All-le :
        (x y : A) (ys : List A)
        → le x y ≡ true
        → All (λ z. le y z ≡ true) ys
        → All (λ z. le x z ≡ true) ys
    All-le x y [] h k = tt
    All-le x y (z ∷ zs) h k = (trans x y z h k.0, All-le x y zs h k.1)

    insert_by-SortedBy : (x : A) (ys : List A) → SortedBy ys → SortedBy (insert_by x ys)
    unfolding insert_by
    insert_by-SortedBy x [] h = (tt, tt)
    insert_by-SortedBy x (y ∷ ys) h = elim (Bool-cases (le x y)) [
      | inl before ↦ rw before ((before, All-le x y ys before h.0), h)
      | inr after ↦ rw after (
        insert_by-All (λ z. le y z ≡ true) x ys (total x y after) h.0,
        insert_by-SortedBy x ys h.1,
      )
    ]

    pub sort_by-SortedBy : (xs : List A) → SortedBy (sort_by xs)
    unfolding sort_by
    sort_by-SortedBy [] = tt
    sort_by-SortedBy (x ∷ xs) = insert_by-SortedBy x (sort_by xs) (sort_by-SortedBy xs)

-- Two blocks in front change places.
pub perm_append_left_comm {ℓ} :
    {A : Type ℓ} (xs ys zs : List A) → Perm (xs ++ (ys ++ zs)) (ys ++ (xs ++ zs))
perm_append_left_comm xs [] zs = Perm.refl (xs ++ zs)
perm_append_left_comm xs (y ∷ ys) zs =
    Perm.trans (perm_middle xs (ys ++ zs)) (Perm.cons y (perm_append_left_comm xs ys zs))

module _ {ℓ} {A : Type ℓ} where
  length-permᴰ : {xs ys : List A} → Permᴰ xs ys → length xs ≡ length ys
  length-permᴰ Permᴰ.nil = refl
  length-permᴰ (Permᴰ.cons e p) = ap suc (length-permᴰ p)
  length-permᴰ (Permᴰ.swap e f) = refl
  length-permᴰ (Permᴰ.trans p q) = length-permᴰ p ∙ length-permᴰ q

  pub length-perm : {xs ys : List A} → Perm xs ys → length xs ≡ length ys
  length-perm {xs} {ys} p = ∥∥₁_elim p (ℕ_set (length xs) (length ys)) length-permᴰ

  module _ {κ} (P : A → Type κ) where
    All-permᴰ : {xs ys : List A} → Permᴰ xs ys → All P xs → All P ys
    All-permᴰ Permᴰ.nil h = h
    All-permᴰ (Permᴰ.cons e p) h = (subst P e h.0, All-permᴰ p h.1)
    All-permᴰ (Permᴰ.swap e f) h = (subst P f h.1.0, (subst P e h.0, h.1.1))
    All-permᴰ (Permᴰ.trans p q) h = All-permᴰ q (All-permᴰ p h)

    All-prop : ((x : A) → IsProp (P x)) → (xs : List A) → IsProp (All P xs)
    All-prop prop [] = Unit-prop
    All-prop prop (x ∷ xs) = ×_prop (prop x) (All-prop prop xs)

    pub All-perm : ((x : A) → IsProp (P x)) → {xs ys : List A} → Perm xs ys → All P xs → All P ys
    All-perm prop {ys} p h = ∥∥₁_elim p (All-prop prop ys) (λ q. All-permᴰ q h)
