-- ===== src/L0/RedisCounter/Atomic.antt =====
-- The adapter meets the port's contract as long as nothing comes between the commands of a decrement.
use dhund_research_ai.Base.{
  ℕ, ◌-◌, ◌≡◌, inl, inr, ap, true, ◌&&◌, String, str_eq, eq_iff, ltb, if◌then◌else◌, arith,
  Bool-cases, ◌<◌,
}
use dhund_research_ai.L0.RedisCounter.{
  ℤ, pos, negsuc, RedisIntegers, or_zero, incremented, below, get_count, increment_if_below,
  decrement,
}

abbrev pub Counts : ℤ → Type 0
Counts (pos n) = Unit {0}
Counts (negsuc n) = ⊥

abbrev pub count : ℤ → ℕ
count (pos n) = n
count (negsuc n) = 0

-- No counter is below zero.
abbrev pub AllCount : (r : RedisIntegers) → r.State → Type 0
AllCount r s = (k : String) → Counts (get_count r k s)

module _ (r : RedisIntegers) where
  abbrev pub alone : r.State → r.State
  alone s = s

  pub get-increment_if_below :
      (j k : String) (max ttl : ℕ) (s : r.State)
      → 0 < ttl
      → get_count r j (increment_if_below r k max ttl s).1 ≡ (
          if str_eq k j && below (get_count r k s) max
          then incremented (get_count r j s)
          else get_count r j s)
  unfolding increment_if_below get_count
  get-increment_if_below j k max ttl s live =
      let same : str_eq k j ≡ true → r.get k s ≡ r.get j s =
        λ e. ap (λ x. r.get x s) ((eq_iff k j).0 e) in
      elim (Bool-cases (below (or_zero (r.get k s)) max)) [
        | inl free ↦ ground (arith, same, r.get-expire j k ttl (r.incr k s).1, r.get-incr j k s)
        | inr full ↦ ground arith
      ]

  pub increment-result :
      (k : String) (max ttl : ℕ) (s : r.State)
      → Counts (get_count r k s)
      → (increment_if_below r k max ttl s).0 ≡ ltb (count (get_count r k s)) max
  unfolding increment_if_below get_count
  increment-result k max ttl s h = ground (arith, r.incr_result k s)

  pub get-decrement :
      (j k : String) (s : r.State)
      → Counts (get_count r k s)
      → get_count r j (decrement r alone k s).1
        ≡ (if str_eq k j then pos (count (get_count r k s) - 1) else get_count r j s)
  unfolding decrement get_count
  get-decrement j k s h =
      ground (arith, r.decr_result k s, r.get-decr j k s, r.get-set j k (pos 0) (r.decr k s).1)
