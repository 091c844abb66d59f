-- ===== src/Ai/Fallback/Attempts.antt =====
-- One hop of the chain: why it fails, and when it answers.
use dhund_research_ai.Ai.AdapterErrors.{
  AdapterErrorKind, Thrown, circuit_open, classify_provider_error, money_micros_error,
}
use dhund_research_ai.Ai.CircuitBreaker.{allow_request}
use dhund_research_ai.Base.{
  ◌≡◌, refl, ◌⊎◌, inl, inr, Bool, true, List, [], ◌∷◌, ◌++◌, String, ok, err, Result-cases, arith,
  Option, Bool-cases, false, some,
}
use dhund_research_ai.Ai.Fallback.{
  Numbers, Hop, Run, HopResult, AttemptOutcome, InvokeOutcome, Method, failed, Breakers,
  failed_attempt, ok_attempt, ok_outcome, failed_outcome, checked, settle, try_hop, allowed, get,
  put,
}

module _ (n : Numbers) (Reply : Type 0) (mentions_network : String → Bool) where
  -- What the breaker of a hop says when its turn comes, in the given state of the breakers.
  abbrev pub says : Hop → Run n Reply → Breakers → Bool
  says hop run b = (allow_request run.timing.asked_at (get hop.provider b)).0

  abbrev pub LetThrough : Hop → Run n Reply → Breakers → Type 0
  LetThrough hop run b = (hop.skip_breaker ≡ true) ⊎ (says hop run b ≡ true)

  abbrev pub Refused : Hop → Run n Reply → Breakers → Option AdapterErrorKind → Type 0
  Refused hop run b error =
      (hop.skip_breaker ≡ false) × (says hop run b ≡ false) × (error ≡ some circuit_open)

  -- The call threw, or answered at a cost that is not in whole micros.
  abbrev pub CallFailed : Run n Reply → Option AdapterErrorKind → Type 0
  CallFailed run error =
      ((e : Thrown) × (run.answer ≡ err e)
        × (error ≡ some (classify_provider_error mentions_network e)))
      ⊎ ((result : HopResult n Reply) × (run.answer ≡ ok result)
          × (n.is_integer result.cost_micros ≡ false)
          × (error ≡ some (classify_provider_error mentions_network money_micros_error)))

  abbrev pub Why : Hop → Run n Reply → Breakers → Option AdapterErrorKind → Type 0
  Why hop run b error = Refused hop run b error ⊎ (LetThrough hop run b × CallFailed run error)

  -- An attempt at a hop that failed, at no cost, and why.
  pub record FailedAttempt (hop : Hop) (run : Run n Reply) (b : Breakers)
      (attempt : AttemptOutcome n Reply) : Type 0 where
    pub why : Why hop run b attempt.error
    pub provider : attempt.provider ≡ hop.provider
    pub model : attempt.model ≡ hop.model
    pub status : attempt.status ≡ failed
    pub cost : attempt.cost_micros ≡ n.of_nat 0

  -- One failed attempt at each hop, in the order of the hops, from one state of the breakers to
  -- another.
  pub data AllFailed
      : List (Hop × Run n Reply)
        → List (AttemptOutcome n Reply)
        → Breakers
        → Breakers
        → Type 0 where
    no_hops : (b : Breakers) → AllFailed [] [] b b
    failed_then :
        (hop : Hop) (run : Run n Reply) (attempt : AttemptOutcome n Reply)
        {hops : List (Hop × Run n Reply)} {attempts : List (AttemptOutcome n Reply)}
        (b last : Breakers)
        → FailedAttempt hop run b attempt
        → AllFailed hops attempts (try_hop n Reply mentions_network hop run b).1 last
        → AllFailed ((hop, run) ∷ hops) (attempt ∷ attempts) b last

  -- The first hop that is let through and answers, at a cost in whole micros, ends the chain.
  pub record Answered (hops : List (Hop × Run n Reply)) (b : Breakers)
      (tried : List (AttemptOutcome n Reply)) (outcome : InvokeOutcome n Reply) : Type 0 where
    pub before : List (Hop × Run n Reply)
    pub hop : Hop
    pub run : Run n Reply
    pub after : List (Hop × Run n Reply)
    pub result : HopResult n Reply
    pub attempts : List (AttemptOutcome n Reply)
    pub reached : Breakers
    pub split : hops ≡ before ++ (hop, run) ∷ after
    pub answers : run.answer ≡ ok result
    pub whole : n.is_integer result.cost_micros ≡ true
    pub failures : AllFailed before attempts b reached
    pub let_through : LetThrough hop run reached
    pub is_outcome :
        outcome
        ≡ ok_outcome n Reply hop result (tried ++ (attempts ++ ok_attempt n Reply hop result ∷ []))

  pub record Exhausted (hops : List (Hop × Run n Reply)) (b : Breakers) (method : Method)
      (tried : List (AttemptOutcome n Reply)) (outcome : InvokeOutcome n Reply) : Type 0 where
    pub attempts : List (AttemptOutcome n Reply)
    pub reached : Breakers
    pub failures : AllFailed hops attempts b reached
    pub is_outcome : outcome ≡ failed_outcome n Reply method (tried ++ attempts)

  pub try_hop-ok :
      (hop : Hop) (run : Run n Reply) (b : Breakers) (result : HopResult n Reply)
      → (try_hop n Reply mentions_network hop run b).0 ≡ ok result
      → (run.answer ≡ ok result) × (n.is_integer result.cost_micros ≡ true)
  unfolding try_hop settle checked
  try_hop-ok hop run b result h = ground arith

  settle-CallFailed :
      (hop : Hop) (run : Run n Reply) (b : Breakers) (attempt : AttemptOutcome n Reply)
      → (settle n Reply mentions_network hop run.timing (checked n Reply run.answer) b).0
        ≡ err attempt
      → CallFailed run attempt.error
  unfolding settle checked failed_attempt
  settle-CallFailed hop run b attempt = elim (Result-cases run.answer) [
    | inr (e, threw) ↦ rw threw (λ h. inl (e, refl, ground arith))
    | inl (result, answers) ↦ elim (Bool-cases (n.is_integer result.cost_micros)) [
      | inl whole ↦ rw (answers, whole) (λ h. absurd (ground arith))
      | inr split ↦ rw (answers, split) (λ h. inr (result, refl, split, ground arith))
    ]
  ]

  try_hop-Why :
      (hop : Hop) (run : Run n Reply) (b : Breakers) (attempt : AttemptOutcome n Reply)
      → (try_hop n Reply mentions_network hop run b).0 ≡ err attempt
      → Why hop run b attempt.error
  unfolding try_hop allowed failed_attempt
  try_hop-Why hop run b attempt = elim (Bool-cases hop.skip_breaker) [
    | inl skips ↦ rw skips (λ h. inr (
      inl refl,
      settle-CallFailed (record hop { skip_breaker = true }) run (run.timing.meanwhile b) attempt h,
    ))
    | inr asks ↦ elim (Bool-cases (says hop run b)) [
      | inl lets ↦
          rw (asks, lets)
            (λ h. inr (
              inr refl,
              settle-CallFailed (record hop { skip_breaker = false }) run
                  (run.timing.meanwhile
                    (put hop.provider (allow_request run.timing.asked_at (get hop.provider b)).1 b))
                  attempt h,
            ))
      | inr refuses ↦ rw (asks, refuses) (λ h. inl (refl, refl, ground arith))
    ]
  ]

  pub try_hop-err :
      (hop : Hop) (run : Run n Reply) (b : Breakers) (attempt : AttemptOutcome n Reply)
      → (try_hop n Reply mentions_network hop run b).0 ≡ err attempt
      → FailedAttempt hop run b attempt
  unfolding try_hop settle checked failed_attempt
  try_hop-err hop run b attempt h = record {
    why = try_hop-Why hop run b attempt h;
    provider = ground arith;
    model = ground arith;
    status = ground arith;
    cost = ground arith;
  }

  -- A hop that answers was let through.
  pub try_hop-through :
      (hop : Hop) (run : Run n Reply) (b : Breakers) (result : HopResult n Reply)
      → (try_hop n Reply mentions_network hop run b).0 ≡ ok result
      → LetThrough hop run b
  unfolding try_hop allowed
  try_hop-through hop run b result = elim (Bool-cases hop.skip_breaker) [
    | inl skips ↦ λ h. inl skips
    | inr asks ↦ elim (Bool-cases (says hop run b)) [
      | inl lets ↦ λ h. inr lets
      | inr refuses ↦ rw (asks, refuses) (λ h. absurd (ground arith))
    ]
  ]

  -- A hop without a breaker that answers is not passed over.
  pub try_hop-skips :
      (hop : Hop) (run : Run n Reply) (b : Breakers) (result : HopResult n Reply)
      → hop.skip_breaker ≡ true
      → run.answer ≡ ok result
      → n.is_integer result.cost_micros ≡ true
      → (try_hop n Reply mentions_network hop run b).0 ≡ ok result
  unfolding try_hop settle checked allowed
  try_hop-skips hop run b result skips answers whole = rw (skips, answers, whole)
