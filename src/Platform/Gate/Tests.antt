-- ===== src/Platform/Gate/Tests.antt =====
-- The gate over counters that are kept in a function, and its theorems at concrete calls.
use dhund_research_ai.Platform.Gate.Acquire.{acquire-release, held, try_acquire-get}
use dhund_research_ai.Platform.Gate.Admission.Waiting.{
  Timely, rounds, admission_ends, Leaves, admission-Limits,
}
use dhund_research_ai.Platform.Gate.Limits.{Limits, release-Limits, try_acquire-Limits}
use dhund_research_ai.Platform.Gate.{
  release, AcquiredGateSlot, try_acquire_immediate, CounterService, batch, check_counters,
  acquire_org, acquire_global, acquire_upload, acquire_ocr, over, increment, is_upload_gated_queue,
  build_org_batch_counter_key, build_global_batch_counter_key, build_org_upload_counter_key,
  build_ocr_pool_counter_key,
}
use dhund_research_ai.Platform.Gate.Admission.{Clock, admit_before_enqueue, wait_for_slot, demoted}
use dhund_research_ai.Base.{
  ℕ, suc, ◌+◌, ◌-◌, ◌*◌, ◌≡◌, ◌≢◌, refl, true, false, ◌&&◌, none, some, [], ◌∷◌, String, str_eq,
  ltb, if◌then◌else◌, arith, ok,
}

abbrev bump : String → ℕ → (String → ℕ) → String → ℕ
bump k max s j = if str_eq k j && ltb (s k) max then suc (s j) else s j

abbrev counters : CounterService
counters = record {
  State = String → ℕ;
  get = λ k s. s k;
  increment_if_below = λ k max s. (ltb (s k) max, bump k max s);
  decrement = λ k s j. if str_eq k j then s j - 1 else s j;
  increment_result = λ k max s. refl;
  get-increment = λ j k max s. refl;
  get-decrement = λ j k s. refl;
}

abbrev empty : String → ℕ
empty _ = 0

empty-Limits : Limits counters empty
empty-Limits = record {
  global = omega arith;
  ocr = omega arith;
  embed_backfill = omega arith;
  upload = λ o. omega arith;
}

abbrev nothing : ℕ → (String → ℕ) → String → ℕ
nothing n s = s

abbrev ocr_slot : AcquiredGateSlot
ocr_slot = record {
  kind = batch;
  org_id = "o";
  keys = "gate:batch:org:o" ∷ "gate:batch:global" ∷ "gate:upload:org:o" ∷ "gate:ocr:global" ∷ [];
}

ocr_acquires : (try_acquire_immediate counters nothing "o" "ocr" 10 empty).0 ≡ some ocr_slot
unfolding try_acquire_immediate check_counters acquire_org acquire_global acquire_upload acquire_ocr
    over increment is_upload_gated_queue build_org_batch_counter_key build_global_batch_counter_key
    build_org_upload_counter_key build_ocr_pool_counter_key
ocr_acquires = refl

try_acquire-get_example :
    let r = try_acquire_immediate counters nothing "o" "ocr" 10 empty in
    r.1 "gate:ocr:global" ≡ 0 + held "gate:ocr:global" r.0
try_acquire-get_example = try_acquire-get counters "gate:ocr:global" "o" "ocr" 10 empty

acquire-release_example :
    release counters nothing ocr_slot
      (try_acquire_immediate counters nothing "o" "ocr" 10 empty).1
      "gate:ocr:global"
    ≡ 0
acquire-release_example =
    acquire-release counters "gate:ocr:global" "o" "ocr" 10 empty ocr_slot ocr_acquires

try_acquire-Limits_example :
    Limits counters (try_acquire_immediate counters nothing "o" "ocr" 10 empty).1
try_acquire-Limits_example =
    try_acquire-Limits counters nothing (λ n s h. h) "o" "ocr" 10 empty empty-Limits

release-Limits_example : Limits counters (release counters nothing ocr_slot empty)
release-Limits_example = release-Limits counters nothing (λ n s h. h) ocr_slot empty empty-Limits

-- A round of the loop each 50 ms.
abbrev ticks : Clock
ticks = record {
  probe_started = 0;
  probe_finished = 0;
  started = 0;
  tested = λ i. 50 * i;
  followed = λ i. 50 * i;
}

ticks-Timely : Timely ticks
ticks-Timely = record {
  starts = omega arith;
  follows = λ i. omega arith;
  delays = λ i. omega arith;
}

abbrev calm : ℕ → ℕ → (String → ℕ) → String → ℕ
calm i n s = s

admission_ends_example :
    admit_before_enqueue counters calm ticks "o" "ocr" 10 true rounds empty ≢ none
admission_ends_example = admission_ends counters calm ticks "o" "ocr" 10 ticks-Timely true empty

-- One round is enough where the deadline is over when the loop begins.
abbrev late : Clock
late = record {
  probe_started = 0;
  probe_finished = 0;
  started = 0;
  tested = λ i. 30000;
  followed = λ i. 30000;
}

late-Timely : Timely late
late-Timely = record { starts = omega arith; follows = λ i. omega arith; delays = λ i. omega arith }

late_demotes :
    admit_before_enqueue counters calm late "o" "ocr" 10 false 1 empty
    ≡ some (ok (demoted 60000 30000), empty)
unfolding admit_before_enqueue wait_for_slot
late_demotes = refl

admission-Limits_example :
    Leaves counters (admit_before_enqueue counters calm ticks "o" "ocr" 10 false 3 empty)
admission-Limits_example =
    admission-Limits counters calm (λ i n s h. h) ticks "o" "ocr" 10 false 3 empty empty-Limits
