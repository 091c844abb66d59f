-- ===== src/L0/RedisCounter/Race.antt =====
-- What two increments do that come between the two commands of a decrement.
use dhund_research_ai.Base.{ℕ, ◌<◌, ◌≡◌, true, false, String, eq_refl, arith}
use dhund_research_ai.L0.RedisCounter.{pos, RedisIntegers, get_count, increment_if_below, decrement}

module _ (r : RedisIntegers) (k : String) (max ttl : ℕ) where
  -- Two clients ask for a place, one after the other.
  abbrev pub two_increments : r.State → r.State
  two_increments s = (increment_if_below r k max ttl (increment_if_below r k max ttl s).1).1

  -- A counter that is decremented at zero, as after its expiry, falls to -1 until the adapter resets
  -- it. Of two increments that come in between, the first is refused although the counter is below
  -- its maximum, the second is granted, and the reset then wipes it out: the counter reads 0 with a
  -- place given away.
  pub lost_increment :
      (s : r.State)
      → get_count r k s ≡ pos 0
      → 0 < max
      → let fallen = (r.decr k s).1 in
        let first = increment_if_below r k max ttl fallen in
        (first.0 ≡ false)
        × ((increment_if_below r k max ttl first.1).0 ≡ true)
        × (get_count r k (decrement r two_increments k s).1 ≡ pos 0)
  unfolding get_count increment_if_below decrement
  lost_increment s zero room =
      let fallen = (r.decr k s).1 in
      let first = (r.incr k fallen).1 in
      let expired = r.expire k ttl first in
      ground (
        arith,
        eq_refl k,
        r.decr_result k s,
        r.get-decr k k s,
        r.incr_result k fallen,
        r.get-incr k k fallen,
        r.get-expire k k ttl first,
        r.incr_result k expired,
        r.get-set k k (pos 0) (two_increments fallen),
      )
