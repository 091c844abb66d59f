-- ===== src/Ai/Fallback/Ends.antt =====
-- How a walk of the chain ends.
use dhund_research_ai.Ai.Fallback.Attempts.{
  failed_then, no_hops, try_hop-ok, try_hop-err, try_hop-through, try_hop-skips, FailedAttempt,
  Answered, Exhausted,
}
use mathlib.Core.List.{append_assoc, append-nil}
use dhund_research_ai.Base.{
  ◌≡◌, refl, sym, ◌∙◌, ap, ◌⊎◌, inl, inr, Bool, true, List, [], ◌∷◌, ◌++◌, String, ok, Result-cases,
}
use dhund_research_ai.Ai.Fallback.{
  Numbers, Hop, Run, HopResult, AttemptOutcome, InvokeOutcome, Method, succeeded, Breakers,
  ok_outcome, failed_outcome, last_method, try_hop, walk_from, walk_fallback_chain,
}

module _ (n : Numbers) (Reply : Type 0) (mentions_network : String → Bool) where
  -- What a round says of the rest of the chain, with its attempt put first.
  cons-Answered :
      (hop : Hop) (run : Run n Reply) (attempt : AttemptOutcome n Reply)
      (hops : List (Hop × Run n Reply)) (b : Breakers) (tried : List (AttemptOutcome n Reply))
      (outcome : InvokeOutcome n Reply)
      → FailedAttempt n Reply mentions_network hop run b attempt
      → Answered n Reply mentions_network hops
          (try_hop n Reply mentions_network hop run b).1
          (tried ++ attempt ∷ [])
          outcome
      → Answered n Reply mentions_network ((hop, run) ∷ hops) b tried outcome
  cons-Answered hop run attempt hops b tried outcome f a = record {
    before = (hop, run) ∷ a.before;
    hop = a.hop;
    run = a.run;
    after = a.after;
    result = a.result;
    attempts = attempt ∷ a.attempts;
    split = ap (λ rest. (hop, run) ∷ rest) a.split;
    answers = a.answers;
    whole = a.whole;
    reached = a.reached;
    failures = failed_then hop run attempt b a.reached f a.failures;
    let_through = a.let_through;
    is_outcome =
        a.is_outcome ∙ ap (ok_outcome n Reply a.hop a.result) (append_assoc tried (attempt ∷ []) _);
  }

  cons-Exhausted :
      (hop : Hop) (run : Run n Reply) (attempt : AttemptOutcome n Reply)
      (hops : List (Hop × Run n Reply)) (b : Breakers) (method : Method)
      (tried : List (AttemptOutcome n Reply)) (outcome : InvokeOutcome n Reply)
      → FailedAttempt n Reply mentions_network hop run b attempt
      → Exhausted n Reply mentions_network hops
          (try_hop n Reply mentions_network hop run b).1
          method
          (tried ++ attempt ∷ [])
          outcome
      → Exhausted n Reply mentions_network ((hop, run) ∷ hops) b method tried outcome
  cons-Exhausted hop run attempt hops b method tried outcome f a = record {
    attempts = attempt ∷ a.attempts;
    reached = a.reached;
    failures = failed_then hop run attempt b a.reached f a.failures;
    is_outcome =
        a.is_outcome ∙ ap (failed_outcome n Reply method) (append_assoc tried (attempt ∷ []) _);
  }

  walk_from-Ends :
      (method : Method) (tried : List (AttemptOutcome n Reply)) (hops : List (Hop × Run n Reply))
      (b : Breakers)
      → let outcome = (walk_from n Reply mentions_network method tried hops b).0 in
        Answered n Reply mentions_network hops b tried outcome
        ⊎ Exhausted n Reply mentions_network hops b method tried outcome
  unfolding walk_from
  walk_from-Ends method tried [] b = inr (record {
    attempts = [];
    reached = b;
    failures = no_hops b;
    is_outcome = ap (failed_outcome n Reply method) (sym (append-nil tried));
  })
  walk_from-Ends method tried ((hop, run) ∷ hops) b =
      elim (Result-cases (try_hop n Reply mentions_network hop run b).0) [
        | inl (result, e) ↦
            let said = try_hop-ok n Reply mentions_network hop run b result e in
            rw (e, walk_from)
              (inl (record {
                before = [];
                hop = hop;
                run = run;
                after = hops;
                result = result;
                attempts = [];
                split = refl;
                answers = said.0;
                whole = said.1;
                reached = b;
                failures = no_hops b;
                let_through = try_hop-through n Reply mentions_network hop run b result e;
                is_outcome = refl;
              }))
        | inr (attempt, e) ↦
            let f = try_hop-err n Reply mentions_network hop run b attempt e in
            let next = (try_hop n Reply mentions_network hop run b).1 in
            rw (e, walk_from)
              (elim (walk_from-Ends method (tried ++ attempt ∷ []) hops next) [
                | inl a ↦ inl (cons-Answered hop run attempt hops b tried _ f a)
                | inr x ↦ inr (cons-Exhausted hop run attempt hops b method tried _ f x)
              ])
      ]

  pub walk_fallback_chain-Ends :
      (hops : List (Hop × Run n Reply)) (b : Breakers)
      → let outcome = (walk_fallback_chain n Reply mentions_network hops b).0 in
        Answered n Reply mentions_network hops b [] outcome
        ⊎ Exhausted n Reply mentions_network hops b (last_method n Reply hops) [] outcome
  unfolding walk_fallback_chain
  walk_fallback_chain-Ends hops b = walk_from-Ends (last_method n Reply hops) [] hops b

  -- A hop that asks no breaker and answers ends the chain well, if no hop before it does.
  walk_from-succeeds :
      (method : Method) (tried : List (AttemptOutcome n Reply)) (before : List (Hop × Run n Reply))
      (hop : Hop) (run : Run n Reply) (after : List (Hop × Run n Reply))
      (result : HopResult n Reply) (b : Breakers)
      → hop.skip_breaker ≡ true
      → run.answer ≡ ok result
      → n.is_integer result.cost_micros ≡ true
      → (walk_from n Reply mentions_network method tried (before ++ (hop, run) ∷ after) b).0.status
        ≡ succeeded
  unfolding walk_from ok_outcome
  walk_from-succeeds method tried [] hop run after result b skips answers whole =
      rw (try_hop-skips n Reply mentions_network hop run b result skips answers whole, walk_from)
  walk_from-succeeds method tried ((first, its) ∷ before) hop run after result b skips answers
        whole =
      elim (Result-cases (try_hop n Reply mentions_network first its b).0) [
        | inl (r, e) ↦ rw (e, walk_from)
        | inr (attempt, e) ↦
            let next = (try_hop n Reply mentions_network first its b).1 in
            rw (e, walk_from)
              (walk_from-succeeds method (tried ++ attempt ∷ []) before hop run after result next
                skips answers whole)
      ]

  -- A chain with a hop that asks no breaker and answers at a cost in whole micros succeeds,
  -- whatever the breakers and the calls of the other hops do.
  pub walk_fallback_chain-succeeds :
      (before : List (Hop × Run n Reply)) (hop : Hop) (run : Run n Reply)
      (after : List (Hop × Run n Reply)) (result : HopResult n Reply) (b : Breakers)
      → hop.skip_breaker ≡ true
      → run.answer ≡ ok result
      → n.is_integer result.cost_micros ≡ true
      → (walk_fallback_chain n Reply mentions_network (before ++ (hop, run) ∷ after) b).0.status
        ≡ succeeded
  unfolding walk_fallback_chain
  walk_fallback_chain-succeeds before hop run after result b skips answers whole =
      walk_from-succeeds _ [] before hop run after result b skips answers whole
