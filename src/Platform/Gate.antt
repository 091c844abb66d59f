-- ===== src/Platform/Gate.antt =====
-- src/platform/concurrency: concurrency-gate.config.ts, BatchConcurrencyGateService,
-- EnqueueAdmissionService and InteractiveLaneService. The counters are the port CounterService of
-- src/l0/ports/counter.port.ts, a parameter with the laws that the gate relies on. A method awaits
-- each command: `elsewhere n` is what other processes do to the counters before the n-th command in
-- the text of the method, so that a result for every `elsewhere` covers every interleaving.
-- Metrics are left out, with the reads that only feed them.
pub mod Keys
pub mod Acquire
pub mod Kept
pub mod Limits
pub mod Admission
mod Tests
use Prim.Native.String.{◌++◌}
use mathlib.Core.List
use dhund_research_ai.Base.{
  ℕ, zero, suc, ◌+◌, ◌-◌, ◌≡◌, Bool, true, false, not, ◌&&◌, Option, none, some, List, [], ◌∷◌,
  String, str_eq, ltb, leb, if◌then◌else◌, any,
}

pub record CounterService : Type 1 where
  pub State : Type 0
  pub get : String → State → ℕ
  pub increment_if_below : String → ℕ → State → Bool × State
  pub decrement : String → State → State
  pub increment_result :
      (k : String) (max : ℕ) (s : State) → (increment_if_below k max s).0 ≡ ltb (get k s) max
  pub get-increment :
      (j k : String) (max : ℕ) (s : State)
      → get j (increment_if_below k max s).1
        ≡ (if str_eq k j && ltb (get k s) max then suc (get j s) else get j s)
  pub get-decrement :
      (j k : String) (s : State)
      → get j (decrement k s) ≡ (if str_eq k j then get j s - 1 else get j s)

abbrev pub upload_concurrency_default : ℕ
upload_concurrency_default = 5

abbrev pub per_org_batch_concurrency_default : ℕ
per_org_batch_concurrency_default = 10

abbrev pub global_batch_concurrency : ℕ
global_batch_concurrency = 50

abbrev pub interactive_reserve_slots : ℕ
interactive_reserve_slots = 10

abbrev pub embed_backfill_global_cap : ℕ
embed_backfill_global_cap = 2

abbrev pub ocr_pool_ceiling : ℕ
ocr_pool_ceiling = 4

abbrev pub effective_global_batch_limit : ℕ
effective_global_batch_limit = global_batch_concurrency - interactive_reserve_slots

unfoldable pub is_upload_gated_queue : String → Bool
is_upload_gated_queue queue_name = any (str_eq queue_name) ("extract" ∷ "ocr" ∷ "chunk" ∷ [])

unfoldable pub build_org_batch_counter_key : String → String
build_org_batch_counter_key org_id = "gate:batch:org:" ++ org_id

unfoldable pub build_global_batch_counter_key : String
build_global_batch_counter_key = "gate:batch:global"

unfoldable pub build_org_upload_counter_key : String → String
build_org_upload_counter_key org_id = "gate:upload:org:" ++ org_id

unfoldable pub build_embed_backfill_global_counter_key : String
build_embed_backfill_global_counter_key = "gate:embed-backfill:global"

unfoldable pub build_ocr_pool_counter_key : String
build_ocr_pool_counter_key = "gate:ocr:global"

pub data GateSlotKind : Type 0 where
  batch upload embed_backfill : GateSlotKind

pub record AcquiredGateSlot : Type 0 where
  pub kind : GateSlotKind
  pub org_id : String
  pub keys : List String

-- `[...(key !== null ? [key] : [])]`.
abbrev pub listed : Option String → List String
listed none = []
listed (some key) = key ∷ []

module _ (c : CounterService) where
  open c use {State, get, increment_if_below, decrement}

  abbrev pub is_org_over_hard_limit : ℕ → ℕ → Bool
  is_org_over_hard_limit inflight limit = leb limit inflight

  module _ (elsewhere : ℕ → State → State) where
    -- The test of an optional counter, read by the n-th command.
    over : ℕ → Option String → ℕ → State → Bool × State
    over n none limit s = (false, s)
    over n (some key) limit s =
        let s' = elsewhere n s in (is_org_over_hard_limit (get key s') limit, s')

    increment : ℕ → String → ℕ → State → Bool × State
    increment n key max s = increment_if_below key max (elsewhere n s)

    lower : ℕ → String → State → State
    lower n key s = decrement key (elsewhere n s)

    lower_optional : ℕ → Option String → State → State
    lower_optional n none s = s
    lower_optional n (some key) s = lower n key s

    try_acquire_embed_backfill : String → State → Option AcquiredGateSlot × State
    try_acquire_embed_backfill org_id s =
        let key = build_embed_backfill_global_counter_key in
        let (acquired, s1) = increment 0 key embed_backfill_global_cap s in
        if not acquired
        then (none, s1)
        else (some (record { kind = embed_backfill; org_id = org_id; keys = key ∷ [] }), s1)

    -- The last `if` of `tryAcquireImmediate` and its result.
    acquire_ocr :
        String
        → String
        → String
        → Option String
        → Option String
        → State
        → Option AcquiredGateSlot × State
    acquire_ocr org_id org_key global_key upload_key none s = (
      some (record {
        kind = batch;
        org_id = org_id;
        keys = org_key ∷ global_key ∷ listed upload_key;
      }),
      s,
    )
    acquire_ocr org_id org_key global_key upload_key (some ocr_key) s =
        let (acquired, s1) = increment 9 ocr_key ocr_pool_ceiling s in
        if not acquired
        then (none, lower_optional 12 upload_key (lower 11 global_key (lower 10 org_key s1)))
        else (
          some (record {
            kind = batch;
            org_id = org_id;
            keys = org_key ∷ global_key ∷ (List.◌++◌ (listed upload_key) (ocr_key ∷ []));
          }),
          s1,
        )

    acquire_upload :
        String
        → String
        → String
        → Option String
        → Option String
        → State
        → Option AcquiredGateSlot × State
    acquire_upload org_id org_key global_key none ocr_key s =
        acquire_ocr org_id org_key global_key none ocr_key s
    acquire_upload org_id org_key global_key (some upload_key) ocr_key s =
        let (acquired, s1) = increment 6 upload_key upload_concurrency_default s in
        if not acquired
        then (none, lower 8 global_key (lower 7 org_key s1))
        else acquire_ocr org_id org_key global_key (some upload_key) ocr_key s1

    acquire_global :
        String
        → String
        → String
        → Option String
        → Option String
        → State
        → Option AcquiredGateSlot × State
    acquire_global org_id org_key global_key upload_key ocr_key s =
        let (acquired, s1) = increment 4 global_key effective_global_batch_limit s in
        if not acquired
        then (none, lower 5 org_key s1)
        else acquire_upload org_id org_key global_key upload_key ocr_key s1

    acquire_org :
        ℕ
        → String
        → String
        → String
        → Option String
        → Option String
        → State
        → Option AcquiredGateSlot × State
    acquire_org org_limit org_id org_key global_key upload_key ocr_key s =
        let (acquired, s1) = increment 3 org_key org_limit s in
        if not acquired
        then (none, s1)
        else acquire_global org_id org_key global_key upload_key ocr_key s1

    -- The three reads that come first.
    check_counters :
        ℕ
        → String
        → String
        → String
        → Option String
        → Option String
        → State
        → Option AcquiredGateSlot × State
    check_counters org_limit org_id org_key global_key upload_key ocr_key s =
        let (org_over, s1) = over 0 (some org_key) org_limit s in
        let (upload_over, s2) = over 1 upload_key upload_concurrency_default s1 in
        let (ocr_over, s3) = over 2 ocr_key ocr_pool_ceiling s2 in
        if org_over
        then (none, s1)
        else if upload_over
        then (none, s2)
        else if ocr_over
        then (none, s3)
        else acquire_org org_limit org_id org_key global_key upload_key ocr_key s3

    pub try_acquire_immediate : String → String → ℕ → State → Option AcquiredGateSlot × State
    try_acquire_immediate org_id queue_name org_limit s =
        let upload_key =
          if is_upload_gated_queue queue_name
          then some (build_org_upload_counter_key org_id)
          else none in
        let ocr_key = if str_eq queue_name "ocr" then some build_ocr_pool_counter_key else none in
        if str_eq queue_name "embed-backfill"
        then try_acquire_embed_backfill org_id s
        else check_counters org_limit org_id (build_org_batch_counter_key org_id)
            build_global_batch_counter_key upload_key ocr_key s

    -- The loop of `release`.
    pub release_keys : ℕ → List String → State → State
    release_keys n [] s = s
    release_keys n (key ∷ keys) s = release_keys (suc n) keys (lower n key s)

    pub release : AcquiredGateSlot → State → State
    release slot s = release_keys 0 slot.keys s
