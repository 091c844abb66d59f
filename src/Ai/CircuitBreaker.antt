-- ===== src/Ai/CircuitBreaker.antt =====
-- src/ai/adapters/circuit-breaker.ts, class ProviderCircuitBreaker.
-- A method takes one argument for each reading of `clock.now()` that it makes, in the order of the
-- reads. Times are milliseconds in ℕ. `now - X` stops at 0 where JavaScript's goes below 0: the
-- tests that read it, `elapsed >= 30000` and `atMs >= cutoff`, agree on both. Logging is left out.
pub mod Events
pub mod Invariant
pub mod Window
mod Tests
use dhund_research_ai.Base.{
  ℕ, ◌+◌, ◌-◌, ◌*◌, Bool, true, false, not, ◌||◌, List, [], ◌∷◌, ◌++◌, ltb, leb, if◌then◌else◌,
  length, filter,
}

abbrev pub circuit_consecutive_failures : ℕ
circuit_consecutive_failures = 5

abbrev pub circuit_window_ms : ℕ
circuit_window_ms = 60000

abbrev pub circuit_half_open_after_ms : ℕ
circuit_half_open_after_ms = 30000

abbrev pub circuit_min_samples_for_rate : ℕ
circuit_min_samples_for_rate = 6

pub data CircuitState : Type 0 where
  closed opened half_open : CircuitState

pub record OutcomeSample : Type 0 where
  pub at_ms : ℕ
  pub success : Bool

pub record Breaker : Type 0 where
  pub state : CircuitState
  pub consecutive_failures : ℕ
  pub opened_at_ms : ℕ
  pub probe_in_flight : Bool
  pub samples : List OutcomeSample

unfoldable pub initial : Breaker
initial = record {
  state = closed;
  consecutive_failures = 0;
  opened_at_ms = 0;
  probe_in_flight = false;
  samples = [];
}

-- The test and the update of `maybeTransitionToHalfOpen`, which returns at once unless open.
half_open_when_due : CircuitState → ℕ → Breaker → Breaker
half_open_when_due opened now b =
    if leb circuit_half_open_after_ms (now - b.opened_at_ms)
    then record b { state = half_open; probe_in_flight = false }
    else b
half_open_when_due _ now b = b

unfoldable pub maybe_transition_to_half_open : ℕ → Breaker → Breaker
unfolding half_open_when_due
maybe_transition_to_half_open now b = half_open_when_due b.state now b

unfoldable pub get_state : ℕ → Breaker → CircuitState × Breaker
unfolding maybe_transition_to_half_open
get_state now b = let b' = maybe_transition_to_half_open now b in (b'.state, b')

-- The `switch` of `allowRequest`.
admit : CircuitState → Breaker → Bool × Breaker
admit closed b = (true, b)
admit opened b = (false, b)
admit half_open b =
    if b.probe_in_flight then (false, b) else (true, record b { probe_in_flight = true })

unfoldable pub allow_request : ℕ → Breaker → Bool × Breaker
unfolding maybe_transition_to_half_open admit
allow_request now b = let b' = maybe_transition_to_half_open now b in admit b'.state b'

-- `while (samples.length > 0 && samples[0].atMs < cutoff) samples.shift()`.
unfoldable pub prune : ℕ → List OutcomeSample → List OutcomeSample
prune cutoff [] = []
prune cutoff (s ∷ ss) = let rest = prune cutoff ss in if ltb s.at_ms cutoff then rest else s ∷ ss

unfoldable pub push_sample : ℕ → Bool → Breaker → Breaker
push_sample now success b = record b {
  samples =
      prune (now - circuit_window_ms) (b.samples ++ record { at_ms = now; success = success } ∷ []);
}

-- `failures / window.length > 0.5` on whole numbers.
unfoldable pub failure_rate_exceeded : ℕ → Breaker → Bool
failure_rate_exceeded now b =
    let window = filter (λ s. leb (now - circuit_window_ms) s.at_ms) b.samples in
    let failures = length (filter (λ s. not s.success) window) in
    if ltb (length window) circuit_min_samples_for_rate
    then false
    else ltb (length window) (failures * 2)

unfoldable pub open_circuit : ℕ → Breaker → Breaker
open_circuit now b = record b { state = opened; opened_at_ms = now; probe_in_flight = false }

unfoldable pub record_success : ℕ → Breaker → Breaker
unfolding push_sample
record_success now b = record (push_sample now true (record b { consecutive_failures = 0 })) {
  probe_in_flight = false;
  state = closed;
}

-- `if (this.state === 'half_open') this.open()`.
reopen_half_open : CircuitState → ℕ → Breaker → Breaker
reopen_half_open half_open now b = open_circuit now b
reopen_half_open _ now b = b

-- The three readings: in `pushSample`, in `failureRateExceeded` and in `open`.
unfoldable pub record_failure : ℕ → ℕ → ℕ → Breaker → Breaker
unfolding push_sample open_circuit reopen_half_open
record_failure pushed rated opens b =
    let counted = record b { consecutive_failures = b.consecutive_failures + 1 } in
    let sampled = record (push_sample pushed false counted) { probe_in_flight = false } in
    if leb circuit_consecutive_failures sampled.consecutive_failures
      || failure_rate_exceeded rated sampled
    then open_circuit opens sampled
    else reopen_half_open sampled.state opens sampled
