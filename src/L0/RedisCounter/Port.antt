-- ===== src/L0/RedisCounter/Port.antt =====
-- The adapter as the counter service of the concurrency gate.
use dhund_research_ai.Base.{
  ℕ, suc, ◌-◌, ◌≡◌, ap, true, ◌&&◌, String, str_eq, eq_iff, ltb, if◌then◌else◌, arith, ◌<◌,
}
use dhund_research_ai.Platform.Gate.{CounterService}
use dhund_research_ai.L0.RedisCounter.{RedisIntegers, get_count, increment_if_below, decrement}
use dhund_research_ai.L0.RedisCounter.Atomic.{
  count, AllCount, alone, get-increment_if_below, increment-result, get-decrement,
}

module _ (r : RedisIntegers) where
  pub increment-AllCount :
      (k : String) (max ttl : ℕ) (s : r.State)
      → 0 < ttl
      → AllCount r s
      → AllCount r (increment_if_below r k max ttl s).1
  increment-AllCount k max ttl s live h j =
      ground (arith, h j, h k, get-increment_if_below r j k max ttl s live)

  pub decrement-AllCount :
      (k : String) (s : r.State) → AllCount r s → AllCount r (decrement r (alone r) k s).1
  decrement-AllCount k s h j = ground (arith, h j, get-decrement r j k s (h k))

  -- The states in which no counter is below zero.
  abbrev pub Counters : Type 0
  Counters = (s : r.State) × AllCount r s

  pub increment_count :
      (j k : String) (max ttl : ℕ) (s : Counters)
      → 0 < ttl
      → count (get_count r j (increment_if_below r k max ttl s.0).1) ≡ (
          if str_eq k j && ltb (count (get_count r k s.0)) max
          then suc (count (get_count r j s.0))
          else count (get_count r j s.0))
  increment_count j k max ttl s live =
      ground (arith, s.1 j, s.1 k, get-increment_if_below r j k max ttl s.0 live)

  pub decrement_count :
      (j k : String) (s : Counters)
      → count (get_count r j (decrement r (alone r) k s.0).1)
        ≡ (if str_eq k j then count (get_count r j s.0) - 1 else count (get_count r j s.0))
  decrement_count j k s =
      let same : str_eq k j ≡ true → get_count r k s.0 ≡ get_count r j s.0 =
        λ e. ap (λ x. get_count r x s.0) ((eq_iff k j).0 e) in
      ground (arith, same, s.1 j, get-decrement r j k s.0 (s.1 k))

  -- The counters' time to live, above zero, is an argument of every increment.
  unfoldable pub redis_counter : (ttl : ℕ) → 0 < ttl → CounterService
  redis_counter ttl live = record {
    State = Counters;
    get = λ k s. count (get_count r k s.0);
    increment_if_below = λ k max s. (
      (increment_if_below r k max ttl s.0).0,
      ((increment_if_below r k max ttl s.0).1, increment-AllCount k max ttl s.0 live s.1),
    );
    decrement = λ k s. ((decrement r (alone r) k s.0).1, decrement-AllCount k s.0 s.1);
    increment_result = λ k max s. increment-result r k max ttl s.0 (s.1 k);
    get-increment = λ j k max s. increment_count j k max ttl s live;
    get-decrement = λ j k s. decrement_count j k s;
  }

  -- Where no counter is below zero, the time to live is above zero and no command of another client comes between those of a
  -- decrement, the adapter meets the port's contract: an increment is granted exactly when the
  -- counter is below its maximum, and then adds one to that counter alone; a decrement takes one
  -- from that counter alone, and stops at zero.
  pub counter_contract :
      (j k : String) (max ttl : ℕ) (s : r.State)
      → 0 < ttl
      → AllCount r s
      → ((increment_if_below r k max ttl s).0 ≡ ltb (count (get_count r k s)) max)
        × (count (get_count r j (increment_if_below r k max ttl s).1) ≡ (
            if str_eq k j && ltb (count (get_count r k s)) max
            then suc (count (get_count r j s))
            else count (get_count r j s)))
        × (count (get_count r j (decrement r (alone r) k s).1)
            ≡ (if str_eq k j then count (get_count r j s) - 1 else count (get_count r j s)))
  counter_contract j k max ttl s live h = (
    increment-result r k max ttl s (h k),
    increment_count j k max ttl (s, h) live,
    decrement_count j k (s, h),
  )
