-- ===== src/Platform/Gate/Admission/Waiting.antt =====
-- How long an admission waits, and that it ends.
use dhund_research_ai.Platform.Gate.Limits.{Limits, try_acquire-Limits}
use dhund_research_ai.Base.{
  ℕ, zero, suc, ◌+◌, ◌*◌, ◌≤◌, ◌≢◌, Bool, none, String, arith, ◌≡◌, some, Option, Bool-cases, ok,
  ltb, inl, Option-cases, inr,
}
use dhund_research_ai.Platform.Gate.{CounterService, try_acquire_immediate}
use dhund_research_ai.Platform.Gate.Admission.{
  Clock, retry_delay_ms, wait_for_slot, admit_before_enqueue, gate_acquire_timeout_ms, deadline,
  demoted, gate_demotion_delay_ms,
}

-- The clock does not go back, and a delay lasts at least as long as was asked for.
pub record Timely (clock : Clock) : Type 0 where
  pub starts : clock.started ≤ clock.tested 0
  pub follows : (i : ℕ) → clock.tested i ≤ clock.followed i
  pub delays :
      (i : ℕ)
      → clock.followed i + retry_delay_ms (deadline clock) (clock.followed i) ≤ clock.tested (suc i)

-- One round for each 50 ms of the timeout, and one more.
abbrev pub rounds : ℕ
rounds = 601

module _ (c : CounterService) (elsewhere : ℕ → ℕ → c.State → c.State) (clock : Clock)
    (org_id queue_name : String) (org_limit : ℕ) (timely : Timely clock) where
  wait_for_slot-ne-none :
      (k i : ℕ) (s : c.State)
      → clock.started + 30000 ≤ clock.tested i + 50 * k
      → wait_for_slot c elsewhere clock org_id queue_name org_limit (suc k) i s ≢ none
  unfolding wait_for_slot
  wait_for_slot-ne-none zero i s h = ground arith
  wait_for_slot-ne-none (suc k) i s h =
      let attempt = try_acquire_immediate c (elsewhere (suc i)) org_id queue_name org_limit s in
      let follows = timely.follows i in
      let delays = timely.delays i in
      let later = wait_for_slot-ne-none k (suc i) attempt.1 in
      ground (arith, follows, delays, later)

  -- If the clock does not go back and a delay lasts as long as was asked for, 601 rounds are enough:
  -- the call returns an outcome or throws.
  pub admission_ends :
      (batch_saturated : Bool) (s : c.State)
      → admit_before_enqueue c elsewhere clock org_id queue_name org_limit batch_saturated rounds s
        ≢ none
  unfolding admit_before_enqueue
  admission_ends batch_saturated s =
      ground (arith, timely.starts, wait_for_slot-ne-none 600 0 (elsewhere 0 0 s))

  wait_for_slot-demoted :
      (fuel i : ℕ) (s s' : c.State) (delay_ms waited_ms : ℕ)
      → wait_for_slot c elsewhere clock org_id queue_name org_limit fuel i s
        ≡ some (demoted delay_ms waited_ms, s')
      → (delay_ms ≡ gate_demotion_delay_ms) × (gate_acquire_timeout_ms ≤ waited_ms)
  unfolding wait_for_slot
  wait_for_slot-demoted zero i s s' d w h = absurd (ground arith)
  wait_for_slot-demoted (suc fuel) i s s' d w h =
      let attempt = try_acquire_immediate c (elsewhere (suc i)) org_id queue_name org_limit s in
      let follows = timely.follows i in
      let later = wait_for_slot-demoted fuel (suc i) attempt.1 s' d w in
      ground (arith, follows, later)

  -- With such a clock a call is demoted only after it has waited for 30 seconds, and the job is
  -- delayed by 60 seconds: it is never failed for want of a slot.
  pub demoted_after_timeout :
      (batch_saturated : Bool) (fuel : ℕ) (s s' : c.State) (delay_ms waited_ms : ℕ)
      → admit_before_enqueue c elsewhere clock org_id queue_name org_limit batch_saturated fuel s
        ≡ some (ok (demoted delay_ms waited_ms), s')
      → (delay_ms ≡ gate_demotion_delay_ms) × (gate_acquire_timeout_ms ≤ waited_ms)
  unfolding admit_before_enqueue
  demoted_after_timeout batch_saturated fuel s s' d w h =
      ground (arith, wait_for_slot-demoted fuel 0 (elsewhere 0 0 s) s' d w)

-- The counters that a run leaves are within their ceilings.
abbrev pub Leaves {ℓ} : {A : Type ℓ} (c : CounterService) → Option (A × c.State) → Type 0
Leaves c none = Unit
Leaves c (some (a, s)) = Limits c s

module _ (c : CounterService) (elsewhere : ℕ → ℕ → c.State → c.State)
    (others : (i n : ℕ) (s : c.State) → Limits c s → Limits c (elsewhere i n s)) (clock : Clock)
    (org_id queue_name : String) (org_limit : ℕ) where
  wait_for_slot-Limits :
      (fuel i : ℕ) (s : c.State)
      → Limits c s
      → Leaves c (wait_for_slot c elsewhere clock org_id queue_name org_limit fuel i s)
  unfolding wait_for_slot
  wait_for_slot-Limits zero i s h = tt
  wait_for_slot-Limits (suc fuel) i s h =
      let attempt = try_acquire_immediate c (elsewhere (suc i)) org_id queue_name org_limit s in
      let kept =
        try_acquire-Limits c (elsewhere (suc i)) (others (suc i)) org_id queue_name org_limit s h in
      let later = wait_for_slot-Limits fuel (suc i) attempt.1 kept in
      elim (Bool-cases (ltb (clock.tested i) (deadline clock))) [
        | inl early ↦ elim (Option-cases attempt.0) [
          | inl refused ↦ rw (early, refused) later
          | inr (slot, got) ↦ rw (early, got) kept
        ]
        | inr late ↦ rw late h
      ]

  -- As long as the other processes keep the ceilings, an admission leaves every shared counter within
  -- its ceiling, whether it is admitted, demoted, rejected or fails.
  pub admission-Limits :
      (batch_saturated : Bool) (fuel : ℕ) (s : c.State)
      → Limits c s
      → Leaves c (
          admit_before_enqueue c elsewhere clock org_id queue_name org_limit batch_saturated fuel s)
  unfolding admit_before_enqueue
  admission-Limits batch_saturated fuel s h =
      let kept = others 0 0 s h in
      let waited = wait_for_slot-Limits fuel 0 (elsewhere 0 0 s) kept in
      ground (arith, kept, waited)
