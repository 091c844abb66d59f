-- ===== src/L0/Actions.antt =====
-- Asynchronous code that reads and changes a store and may throw: an action from the store to a
-- result and the store that is left. Calls run to the end, one after the other.
pub mod Chains
use dhund_research_ai.Base.{Bool, Option, none, some, Result, ok, err, if◌then◌else◌}

abbrev pub Action : Type 0 → Type 0 → Type 0 → Type 0
Action S E A = S → Result E A × S

-- What follows a result: the next call, or the error.
abbrev pub continue : {S E A B : Type 0} → (A → Action S E B) → Result E A × S → Result E B × S
continue f (ok a, s) = f a s
continue f (err e, s) = (err e, s)

infixl 5 ◌>>=◌ ◌>>◌
abbrev pub ◌>>=◌ : {S E A B : Type 0} → Action S E A → (A → Action S E B) → Action S E B
◌>>=◌ m f s = continue f (m s)

abbrev pub ◌>>◌ : {S E A B : Type 0} → Action S E A → Action S E B → Action S E B
m >> k = m >>= λ _. k

abbrev pub pure : {S E A : Type 0} → A → Action S E A
pure a s = (ok a, s)

abbrev pub raise : {S E A : Type 0} → E → Action S E A
raise e s = (err e, s)

abbrev pub gets : {S E A : Type 0} → (S → A) → Action S E A
gets f s = (ok (f s), s)

abbrev pub modify : {S E : Type 0} → (S → S) → Action S E (Unit {0})
modify f s = (ok tt, f s)

-- `if (!b) throw e;`
abbrev pub require : {S E : Type 0} → Bool → E → Action S E (Unit {0})
require b e s = if b then (ok tt, s) else (err e, s)

-- `if (x === null) throw e;`
abbrev pub or_raise : {S E A : Type 0} → Option A → E → Action S E A
or_raise none e s = (err e, s)
or_raise (some a) e s = (ok a, s)

-- A call that throws, with its errors as the caller's.
abbrev pub of_result : {S D E A : Type 0} → (D → E) → Result D A → Action S E A
of_result f (ok a) s = (ok a, s)
of_result f (err e) s = (err (f e), s)

-- A transaction: an error undoes what was written, and comes out wrapped.
abbrev pub undo : {S E A : Type 0} → (E → E) → S → Result E A × S → Result E A × S
undo wrap before (ok a, after) = (ok a, after)
undo wrap before (err e, after) = (err (wrap e), before)

abbrev pub transaction : {S E A : Type 0} → (E → E) → Action S E A → Action S E A
transaction wrap work s = undo wrap s (work s)
