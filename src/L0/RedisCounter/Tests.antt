-- ===== src/L0/RedisCounter/Tests.antt =====
-- The adapter over a store that is kept in a function.
use dhund_research_ai.L0.RedisCounter.Port.{counter_contract}
use dhund_research_ai.L0.RedisCounter.Race.{two_increments, lost_increment}
use dhund_research_ai.L0.RedisCounter.Atomic.{count, AllCount, alone}
use dhund_research_ai.L0.RedisCounter.{
  get_count, RedisIntegers, increment_if_below, ℤ, pos, decrement, incremented, or_zero,
  decremented,
}
use dhund_research_ai.Base.{
  ◌-◌, ◌≡◌, refl, true, false, ◌&&◌, Option, none, some, String, str_eq, ltb, if◌then◌else◌, arith,
  suc,
}

abbrev write : String → Option ℤ → (String → Option ℤ) → String → Option ℤ
write k v s j = if str_eq k j then v else s j

abbrev store : RedisIntegers
store = record {
  State = String → Option ℤ;
  get = λ k s. s k;
  incr = λ k s. (incremented (or_zero (s k)), write k (some (incremented (or_zero (s k)))) s);
  decr = λ k s. (decremented (or_zero (s k)), write k (some (decremented (or_zero (s k)))) s);
  set = λ k n s. write k (some n) s;
  expire = λ k ttl s. if ltb 0 ttl then s else write k none s;
  incr_result = λ k s. refl;
  decr_result = λ k s. refl;
  get-incr = λ j k s. refl;
  get-decr = λ j k s. refl;
  get-set = λ j k n s. refl;
  get-expire = λ j k ttl s. ground arith;
}

abbrev nothing : String → Option ℤ
nothing _ = none

nothing-AllCount : AllCount store nothing
unfolding get_count
nothing-AllCount k = tt

nothing_counts : get_count store "k" nothing ≡ pos 0
unfolding get_count
nothing_counts = refl

counter_contract_example :
    ((increment_if_below store "k" 4 300 nothing).0 ≡ ltb (count (get_count store "k" nothing)) 4)
    × (count (get_count store "k" (increment_if_below store "k" 4 300 nothing).1) ≡ (
        if str_eq "k" "k" && ltb (count (get_count store "k" nothing)) 4
        then suc (count (get_count store "k" nothing))
        else count (get_count store "k" nothing)))
    × (count (get_count store "k" (decrement store (alone store) "k" nothing).1) ≡ (
        if str_eq "k" "k"
        then count (get_count store "k" nothing) - 1
        else count (get_count store "k" nothing)))
counter_contract_example =
    counter_contract store "k" "k" 4 300 nothing (omega arith) nothing-AllCount

lost_increment_example :
    let fallen = (store.decr "k" nothing).1 in
    let first = increment_if_below store "k" 4 300 fallen in
    (first.0 ≡ false)
    × ((increment_if_below store "k" 4 300 first.1).0 ≡ true)
    × (get_count store "k" (decrement store (two_increments store "k" 4 300) "k" nothing).1 ≡ pos 0)
lost_increment_example = lost_increment store "k" 4 300 nothing nothing_counts (omega arith)
