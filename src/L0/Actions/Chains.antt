-- ===== src/L0/Actions/Chains.antt =====
-- Chains of actions: what each of them keeps the chain keeps, and a chain that succeeds has succeeded
-- at each of them.
use dhund_research_ai.Base.{
  Result, Bool, Option, ◌≡◌, ok, some, true, false, err, none, ap, ok≢err, sym, ok-injective, refl,
}
use dhund_research_ai.L0.Actions.{
  ◌>>=◌, Action, of_result, require, or_raise, continue, gets, pure, raise,
}

-- An action keeps a property of the store, however it ends.
pub record Keeps {ℓ} {S E A : Type 0} (Holds : S → Type ℓ) (m : Action S E A) : Type ℓ where
  pub at : (s : S) → Holds s → Holds (m s).1

module _ {ℓ} {S E : Type 0} (Holds : S → Type ℓ) where
  continue-Keeps :
      {A B : Type 0} (k : A → Action S E B) (r : Result E A × S)
      → ((a : A) → Keeps Holds (k a))
      → Holds r.1
      → Holds (continue k r).1
  continue-Keeps k (ok a, s) then h = (then a).at s h
  continue-Keeps k (err e, s) then h = h

  pub >>=-Keeps :
      {A B : Type 0} (m : Action S E A) (k : A → Action S E B)
      → Keeps Holds m
      → ((a : A) → Keeps Holds (k a))
      → Keeps Holds (m >>= k)
  >>=-Keeps m k first then = record { at = λ s h. continue-Keeps k (m s) then (first.at s h) }

  pub require-Keeps : (b : Bool) (e : E) → Keeps Holds (require b e)
  require-Keeps true e = record { at = λ s h. h }
  require-Keeps false e = record { at = λ s h. h }

  pub or_raise-Keeps : {A : Type 0} (found : Option A) (e : E) → Keeps Holds (or_raise found e)
  or_raise-Keeps none e = record { at = λ s h. h }
  or_raise-Keeps (some a) e = record { at = λ s h. h }

  pub of_result-Keeps : {D A : Type 0} (f : D → E) (r : Result D A) → Keeps Holds (of_result f r)
  of_result-Keeps f (ok a) = record { at = λ s h. h }
  of_result-Keeps f (err e) = record { at = λ s h. h }

  -- A read, a result and an error leave the store.
  pub gets-Keeps : {A : Type 0} (f : S → A) → Keeps {E = E} Holds (gets f)
  gets-Keeps f = record { at = λ s h. h }

  pub pure-Keeps : {A : Type 0} (a : A) → Keeps {E = E} Holds (pure a)
  pure-Keeps a = record { at = λ s h. h }

  pub raise-Keeps : {A : Type 0} (e : E) → Keeps {A = A} Holds (raise e)
  raise-Keeps e = record { at = λ s h. h }

module _ {S E : Type 0} where
  -- The two calls of a chain that succeeds.
  pub record Both {A B : Type 0} (m : Action S E A) (k : A → Action S E B) (s : S) (b : B) (t : S)
      : Type 0 where
    pub value : A
    pub middle : S
    pub first : m s ≡ (ok value, middle)
    pub second : k value middle ≡ (ok b, t)

  continue-ok :
      {A B : Type 0} (m : Action S E A) (k : A → Action S E B) (s : S) (b : B) (t : S)
      (r : Result E A × S)
      → m s ≡ r
      → continue k r ≡ (ok b, t)
      → Both m k s b t
  continue-ok m k s b t (ok a, u) e h = record { value = a; middle = u; first = e; second = h }
  continue-ok m k s b t (err x, u) e h = absurd (ok≢err (sym (ap (λ p. p.0) h)))

  pub >>=-ok :
      {A B : Type 0} (m : Action S E A) (k : A → Action S E B) (s : S) (b : B) (t : S)
      → (m >>= k) s ≡ (ok b, t)
      → Both m k s b t
  >>=-ok m k s b t h = continue-ok m k s b t (m s) refl h

  pub require-ok :
      (b : Bool) (e : E) (s t : S) (u : Unit {0}) → require b e s ≡ (ok u, t) → (b ≡ true) × (s ≡ t)
  require-ok true e s t u h = (refl, ap (λ p. p.1) h)
  require-ok false e s t u h = absurd (ok≢err (sym (ap (λ p. p.0) h)))

  pub or_raise-ok :
      {A : Type 0} (found : Option A) (e : E) (s t : S) (a : A)
      → or_raise found e s ≡ (ok a, t)
      → (found ≡ some a) × (s ≡ t)
  or_raise-ok none e s t a h = absurd (ok≢err (sym (ap (λ p. p.0) h)))
  or_raise-ok (some x) e s t a h = (ap some (ok-injective (ap (λ p. p.0) h)), ap (λ p. p.1) h)

  pub of_result-ok :
      {D A : Type 0} (f : D → E) (r : Result D A) (s t : S) (a : A)
      → of_result f r s ≡ (ok a, t)
      → (r ≡ ok a) × (s ≡ t)
  of_result-ok f (err x) s t a h = absurd (ok≢err (sym (ap (λ p. p.0) h)))
  of_result-ok f (ok x) s t a h = (ap ok (ok-injective (ap (λ p. p.0) h)), ap (λ p. p.1) h)

  pub raised-not_ok :
      {A : Type 0} {e : E} {a : A} {s t : S} → ¬ Path (Result E A × S) (err e, s) (ok a, t)
  raised-not_ok h = ok≢err (sym (ap (λ p. p.0) h))

  -- A chain that raises an error on its way does not succeed.
  pub raise-stops :
      {A B C : Type 0} (k : C → Action S E B) (e : E) (r : Result E A × S) (b : B) (t : S)
      → ¬ (continue k (continue (λ _. raise e) r) ≡ (ok b, t))
  raise-stops k e (ok a, s) b t h = raised-not_ok h
  raise-stops k e (err x, s) b t h = raised-not_ok h
