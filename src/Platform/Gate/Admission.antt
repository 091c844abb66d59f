-- ===== src/Platform/Gate/Admission.antt =====
-- EnqueueAdmissionService (enqueue-admission.service.ts) and InteractiveLaneService
-- (interactive-lane.service.ts) of src/platform/concurrency. The readings of `Date.now()` are those
-- of a `Clock`; the loop runs on fuel, and `none` means that the fuel ran out. `elsewhere i n` is
-- what other processes do before the n-th command of the i-th attempt, counted from 1;
-- `elsewhere 0 0` comes before the read of the organisation's counter.
pub mod Waiting
use dhund_research_ai.Base.{
  ℕ, zero, suc, ◌+◌, ◌-◌, Bool, Option, none, some, String, ltb, if◌then◌else◌, min, Result, ok,
  err, ◌>>=◌,
}
use dhund_research_ai.Platform.Gate.{
  CounterService, AcquiredGateSlot, is_org_over_hard_limit, build_org_batch_counter_key,
  try_acquire_immediate, release,
}

abbrev pub gate_acquire_timeout_ms : ℕ
gate_acquire_timeout_ms = 30000

abbrev pub gate_demotion_delay_ms : ℕ
gate_demotion_delay_ms = 60000

abbrev pub interactive_latency_budget_ms : ℕ
interactive_latency_budget_ms = 100

pub data AdmissionError : Type 0 where
  -- `Interactive lane exceeded latency budget`.
  latency_exceeded : ℕ → AdmissionError
  -- AdmissionRejectedError.
  admission_rejected : String → AdmissionError

pub data AdmissionOutcome : Type 0 where
  admitted : (slot : AcquiredGateSlot) (waited_ms : ℕ) → AdmissionOutcome
  demoted : (delay_ms waited_ms : ℕ) → AdmissionOutcome

-- The readings of a call: around the probe, before the loop, and of each round: in the loop's test,
-- and the one that follows it, in the delay or in `waitedMs`.
pub record Clock : Type 0 where
  pub probe_started : ℕ
  pub probe_finished : ℕ
  pub started : ℕ
  pub tested : ℕ → ℕ
  pub followed : ℕ → ℕ

-- `latencyMs` below 0 is within the budget too.
unfoldable pub run_interactive_probe {ℓ} : {A : Type ℓ} → Clock → A → Result AdmissionError A
run_interactive_probe clock result =
    let latency_ms = clock.probe_finished - clock.probe_started in
    if ltb interactive_latency_budget_ms latency_ms
    then err (latency_exceeded latency_ms)
    else ok result

unfoldable pub assert_batch_does_not_starve_interactive :
    Bool → Clock → Result AdmissionError (Unit {0})
unfolding run_interactive_probe
assert_batch_does_not_starve_interactive batch_saturated clock =
    if batch_saturated then run_interactive_probe clock tt else ok tt

abbrev pub deadline : Clock → ℕ
deadline clock = clock.started + gate_acquire_timeout_ms

-- `Math.min(50, deadline - Date.now())`; a delay of 0 or less does not wait.
abbrev pub retry_delay_ms : ℕ → ℕ → ℕ
retry_delay_ms deadline now = min 50 (deadline - now)

module _ (c : CounterService) (elsewhere : ℕ → ℕ → c.State → c.State) (clock : Clock)
    (org_id queue_name : String) (org_limit : ℕ) where
  -- The `while` loop, from its i-th round.
  unfoldable pub wait_for_slot : ℕ → ℕ → c.State → Option (AdmissionOutcome × c.State)
  wait_for_slot zero i s = none
  wait_for_slot (suc fuel) i s =
      let attempt = try_acquire_immediate c (elsewhere (suc i)) org_id queue_name org_limit s in
      let rest = wait_for_slot fuel (suc i) attempt.1 in
      let waited_ms = clock.followed i - clock.started in
      if ltb (clock.tested i) (deadline clock)
      then (elim attempt.0 [ some slot ↦ some (admitted slot waited_ms, attempt.1) | none ↦ rest ])
      else some (demoted gate_demotion_delay_ms waited_ms, s)

  unfoldable pub admit_before_enqueue :
      Bool → ℕ → c.State → Option (Result AdmissionError AdmissionOutcome × c.State)
  unfolding assert_batch_does_not_starve_interactive
  admit_before_enqueue batch_saturated fuel s =
      elim (assert_batch_does_not_starve_interactive batch_saturated clock) [
        | err e ↦ some (err e, s)
        | ok _ ↦
            let s1 = elsewhere 0 0 s in
            let waiting = wait_for_slot fuel 0 s1 in
            if is_org_over_hard_limit c (c.get (build_org_batch_counter_key org_id) s1) org_limit
            then some (err (admission_rejected org_id), s1)
            else (elim waiting [ none ↦ none | some (outcome, s2) ↦ some (ok outcome, s2) ])
      ]
