-- ===== src/Ai/Fallback.antt =====
-- src/ai/adapters/fallback-chain.ts, with the registry of circuit-breaker.ts. A hop comes with its run: what its call answers, the clock's readings, and what
-- other requests do with the breakers while the call is awaited. Logging is left out.
pub mod Attempts
pub mod Ends
use dhund_research_ai.Ai.AdapterErrors.{
  AdapterErrorKind, circuit_open, Thrown, money_micros_error, classify_provider_error,
}
use dhund_research_ai.Base.{
  ℕ, ◌≡◌, Bool, true, false, ◌||◌, List, [], ◌∷◌, ◌++◌, Option, none, some, Result, ok, err, String,
  leb, ◌==◌, if◌then◌else◌, or_else, value_or,
}
use dhund_research_ai.Ai.CircuitBreaker.{
  Breaker, initial, allow_request, record_success, record_failure,
}
use dhund_research_ai.Ai.Requests.{PolicyProvider, voyage, openai}

-- JavaScript numbers, as far as amounts need them. `of_nat` is a whole number as written.
pub record Numbers : Type 1 where
  pub Number : Type 0
  pub of_nat : ℕ → Number
  pub add : Number → Number → Number
  pub multiply : Number → Number → Number
  pub is_integer : Number → Bool
  pub is_above_zero : Number → Bool

-- What the code relies on: a whole number is an integer.
pub record WholeNumbers (n : Numbers) : Type 0 where
  pub of_nat-is_integer : (k : ℕ) → n.is_integer (n.of_nat k) ≡ true

-- The map of breakers, with an entry for each provider that was asked for.
pub record Breakers : Type 0 where
  pub voyage_breaker : Option Breaker
  pub openai_breaker : Option Breaker

unfoldable pub get : PolicyProvider → Breakers → Breaker
get voyage breakers = value_or breakers.voyage_breaker initial
get openai breakers = value_or breakers.openai_breaker initial

unfoldable pub put : PolicyProvider → Breaker → Breakers → Breakers
put voyage breaker breakers = record breakers { voyage_breaker = some breaker }
put openai breaker breakers = record breakers { openai_breaker = some breaker }

pub data Method : Type 0 where
  llm deterministic : Method

pub data AttemptStatus : Type 0 where
  succeeded failed : AttemptStatus

pub record Hop : Type 0 where
  pub provider : PolicyProvider
  pub model : String
  pub method : Method
  pub skip_breaker : Bool

-- An action on the breaker of a hop, which there may be none of.
unfoldable pub on_breaker : Hop → (Breaker → Breaker) → Breakers → Breakers
unfolding get put
on_breaker hop f breakers =
    if hop.skip_breaker then breakers else put hop.provider (f (get hop.provider breakers)) breakers

-- `breaker === undefined || breaker.allowRequest()`.
unfoldable pub allowed : Hop → ℕ → Breakers → Bool × Breakers
unfolding get put
allowed hop now breakers =
    if hop.skip_breaker
    then (true, breakers)
    else let asked = allow_request now (get hop.provider breakers) in
      (asked.0, put hop.provider asked.1 breakers)

module _ (n : Numbers) where
  -- The clock's readings: at the question to the breaker, in `recordSuccess`, the three of
  -- `recordFailure`, and `Date.now() - started`.
  pub record Timing : Type 0 where
    pub asked_at : ℕ
    pub noted_at : ℕ
    pub pushed : ℕ
    pub rated : ℕ
    pub opens : ℕ
    pub elapsed : n.Number
    pub meanwhile : Breakers → Breakers

  -- `Reply` is the result of the capability.
  module _ (Reply : Type 0) where
    pub record HopResult : Type 0 where
      pub reply : Reply
      pub tokens_in : n.Number
      pub tokens_out : n.Number
      pub cost_micros : n.Number
      pub latency_ms : n.Number

    pub record Run : Type 0 where
      pub answer : Result Thrown HopResult
      pub timing : Timing

    pub record AttemptOutcome : Type 0 where
      pub provider : PolicyProvider
      pub model : String
      pub status : AttemptStatus
      pub error : Option AdapterErrorKind
      pub latency_ms : n.Number
      pub cost_micros : n.Number

    pub record InvokeOutcome : Type 0 where
      pub status : AttemptStatus
      pub method : Method
      pub result : Option Reply
      pub attempts : List AttemptOutcome
      pub tokens_in : n.Number
      pub tokens_out : n.Number
      pub cost_micros : n.Number

    unfoldable pub failed_attempt : Hop → AdapterErrorKind → n.Number → AttemptOutcome
    failed_attempt hop kind latency = record {
      provider = hop.provider;
      model = hop.model;
      status = failed;
      error = some kind;
      latency_ms = latency;
      cost_micros = n.of_nat 0;
    }

    unfoldable pub ok_attempt : Hop → HopResult → AttemptOutcome
    ok_attempt hop result = record {
      provider = hop.provider;
      model = hop.model;
      status = succeeded;
      error = none;
      latency_ms = result.latency_ms;
      cost_micros = result.cost_micros;
    }

    unfoldable pub ok_outcome : Hop → HopResult → List AttemptOutcome → InvokeOutcome
    ok_outcome hop result attempts = record {
      status = succeeded;
      method = hop.method;
      result = some result.reply;
      attempts = attempts;
      tokens_in = result.tokens_in;
      tokens_out = result.tokens_out;
      cost_micros = result.cost_micros;
    }

    -- `hops[hops.length - 1]?.method ?? 'llm'`.
    unfoldable pub last_method : List (Hop × Run) → Method
    last_method [] = llm
    last_method ((hop, run) ∷ []) = hop.method
    last_method (first ∷ next ∷ hops) = last_method (next ∷ hops)

    unfoldable pub failed_outcome : Method → List AttemptOutcome → InvokeOutcome
    failed_outcome method attempts = record {
      status = failed;
      method = method;
      result = none;
      attempts = attempts;
      tokens_in = n.of_nat 0;
      tokens_out = n.of_nat 0;
      cost_micros = n.of_nat 0;
    }

    -- The call and `assertIntegerMicros` of its cost.
    unfoldable pub checked : Result Thrown HopResult → Result Thrown HopResult
    checked (err e) = err e
    checked (ok result) =
        if n.is_integer result.cost_micros then ok result else err money_micros_error

    module _ (mentions_network : String → Bool) where
      -- A round: the result if the hop answers, or else the attempt that failed.
      unfoldable pub settle :
          Hop
          → Timing
          → Result Thrown HopResult
          → Breakers
          → Result AttemptOutcome HopResult × Breakers
      unfolding on_breaker failed_attempt
      settle hop timing (ok result) breakers =
          (ok result, on_breaker hop (record_success timing.noted_at) breakers)
      settle hop timing (err e) breakers = (
        err (failed_attempt hop (classify_provider_error mentions_network e) timing.elapsed),
        on_breaker hop (record_failure timing.pushed timing.rated timing.opens) breakers,
      )

      unfoldable pub try_hop : Hop → Run → Breakers → Result AttemptOutcome HopResult × Breakers
      unfolding allowed settle checked failed_attempt
      try_hop hop run breakers =
          let asked = allowed hop run.timing.asked_at breakers in
          if asked.0
          then settle hop run.timing (checked run.answer) (run.timing.meanwhile asked.1)
          else (err (failed_attempt hop circuit_open (n.of_nat 0)), asked.1)

      -- The loop, with the attempts so far.
      unfoldable pub walk_from :
          Method → List AttemptOutcome → List (Hop × Run) → Breakers → InvokeOutcome × Breakers
      unfolding try_hop ok_attempt ok_outcome failed_outcome
      walk_from method attempts [] breakers = (failed_outcome method attempts, breakers)
      walk_from method attempts ((hop, run) ∷ hops) breakers =
          let tried = try_hop hop run breakers in
          elim tried.0 [
            | ok result ↦ (ok_outcome hop result (attempts ++ ok_attempt hop result ∷ []), tried.1)
            | err attempt ↦ walk_from method (attempts ++ attempt ∷ []) hops tried.1
          ]

      unfoldable pub walk_fallback_chain : List (Hop × Run) → Breakers → InvokeOutcome × Breakers
      unfolding walk_from last_method
      walk_fallback_chain hops breakers = walk_from (last_method hops) [] hops breakers
