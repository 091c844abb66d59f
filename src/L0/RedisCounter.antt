-- ===== src/L0/RedisCounter.antt =====
-- src/l0/adapters/redis/redis-counter.adapter.ts, class RedisCounterAdapter. Redis is the parameter
-- `RedisIntegers`: what its documentation says of GET, INCR, DECR, SET and EXPIRE on keys that hold
-- integers. The Lua script runs as one command, as Redis promises; `decrement` sends up to two, and
-- `between` is what other clients do before the second. Connecting and errors are left out.
pub mod Atomic
pub mod Race
pub mod Port
mod Tests
use dhund_research_ai.Base.{
  ℕ, zero, suc, ◌≡◌, Bool, true, false, Option, none, some, String, str_eq, ltb, if◌then◌else◌,
}

-- `negsuc n` is -(n + 1).
pub data ℤ : Type 0 where
  pos : ℕ → ℤ
  negsuc : ℕ → ℤ

abbrev pub incremented : ℤ → ℤ
incremented (pos n) = pos (suc n)
incremented (negsuc zero) = pos 0
incremented (negsuc (suc n)) = negsuc n

abbrev pub decremented : ℤ → ℤ
decremented (pos zero) = negsuc 0
decremented (pos (suc n)) = pos n
decremented (negsuc n) = negsuc (suc n)

-- `redis.call('GET', key) or '0'`, and `raw === null ? 0 : Number.parseInt(raw, 10)`.
abbrev pub or_zero : Option ℤ → ℤ
or_zero none = pos 0
or_zero (some n) = n

abbrev pub below : ℤ → ℕ → Bool
below (pos n) max = ltb n max
below (negsuc n) max = true

abbrev pub is_positive : ℤ → Bool
is_positive (pos n) = ltb 0 n
is_positive (negsuc n) = false

abbrev pub is_negative : ℤ → Bool
is_negative (pos n) = false
is_negative (negsuc n) = true

pub record RedisIntegers : Type 1 where
  pub State : Type 0
  pub get : String → State → Option ℤ
  pub incr : String → State → ℤ × State
  pub decr : String → State → ℤ × State
  pub set : String → ℤ → State → State
  pub expire : String → ℕ → State → State
  pub incr_result : (k : String) (s : State) → (incr k s).0 ≡ incremented (or_zero (get k s))
  pub decr_result : (k : String) (s : State) → (decr k s).0 ≡ decremented (or_zero (get k s))
  pub get-incr :
      (j k : String) (s : State)
      → get j (incr k s).1
        ≡ (if str_eq k j then some (incremented (or_zero (get k s))) else get j s)
  pub get-decr :
      (j k : String) (s : State)
      → get j (decr k s).1
        ≡ (if str_eq k j then some (decremented (or_zero (get k s))) else get j s)
  pub get-set :
      (j k : String) (n : ℤ) (s : State)
      → get j (set k n s) ≡ (if str_eq k j then some n else get j s)
  -- A time to live above zero leaves the value, whose expiry is a later event; one of zero deletes
  -- the key.
  pub get-expire :
      (j k : String) (ttl : ℕ) (s : State)
      → get j (expire k ttl s)
        ≡ (if ltb 0 ttl then get j s else (if str_eq k j then none else get j s))

module _ (r : RedisIntegers) where
  open r use {State, get, incr, decr, set, expire}

  unfoldable pub get_count : String → State → ℤ
  get_count key s = or_zero (get key s)

  unfoldable pub increment_if_below : String → ℕ → ℕ → State → Bool × State
  increment_if_below key max ttl_seconds s =
      if below (or_zero (get key s)) max
      then (let (next, s1) = incr key s in (is_positive next, expire key ttl_seconds s1))
      else (false, s)

  unfoldable pub decrement : (State → State) → String → State → ℤ × State
  decrement between key s =
      let (next, s1) = decr key s in
      if is_negative next then (pos 0, set key (pos 0) (between s1)) else (next, s1)
