-- ===== src/Ai/Gateway/Scores.antt =====
-- The scores that a reranking gets.
use dhund_research_ai.Ai.Fallback.Attempts.{try_hop-ok}
use dhund_research_ai.Ai.Gateway.Outcomes.{openai_invoke-succeeds, openai_invoke-Accountable}
use dhund_research_ai.Ai.AdapterErrors.{Thrown}
use dhund_research_ai.Ai.Adapters.Replies.{
  parse_reply, build_deterministic_result, result_with, deterministic_reply,
  length-parse_rerank_scores,
}
use dhund_research_ai.Ai.Requests.{rerank_request}
use dhund_research_ai.Ai.Adapters.Invoke.{
  openai_answer, openai_invoke, deterministic_answer, openai_hop, openai_run, deterministic_hop,
  deterministic_run, completion_request,
}
use dhund_research_ai.Ai.Adapters.{
  Readers, Providers, Reply, rerank_reply, AdapterInvokeInput, CapabilityInvokeResult,
}
use dhund_research_ai.Ai.Fallback.{
  Numbers, walk_from, Hop, Run, ok_outcome, failed_outcome, HopResult, Method, AttemptOutcome,
  Breakers, try_hop, succeeded, walk_fallback_chain, last_method, failed, WholeNumbers,
}
use dhund_research_ai.Base.{
  ◌≡◌, inl, inr, List, [], ◌∷◌, ◌++◌, String, ok, Result-cases, some, none, Option, All, Bool, ℕ,
  ◌≢◌, length, ok≢err, Result, sym, subst, ok-injective, length-map, ◌∙◌,
}

module _ (n : Numbers) (Reply : Type 0) (P : Reply → Type 0)
    (mentions_network : String → Bool) where
  -- Whatever a hop answers has the property.
  abbrev pub Answers : Hop × Run n Reply → Type 0
  Answers (hop, run) = (result : HopResult n Reply) → run.answer ≡ ok result → P result.reply

  abbrev pub OfResult : Option Reply → Type 0
  OfResult none = Unit
  OfResult (some reply) = P reply

  walk_from-OfResult :
      (method : Method) (tried : List (AttemptOutcome n Reply)) (hops : List (Hop × Run n Reply))
      (b : Breakers)
      → All Answers hops
      → OfResult (walk_from n Reply mentions_network method tried hops b).0.result
  unfolding walk_from ok_outcome failed_outcome
  walk_from-OfResult method tried [] b h = tt
  walk_from-OfResult method tried ((hop, run) ∷ hops) b h =
      elim (Result-cases (try_hop n Reply mentions_network hop run b).0) [
        | inl (result, e) ↦
            rw (e, walk_from)
              (h.0 result (try_hop-ok n Reply mentions_network hop run b result e).0)
        | inr (attempt, e) ↦
            rw (e, walk_from)
              (walk_from-OfResult method (tried ++ attempt ∷ []) hops
                (try_hop n Reply mentions_network hop run b).1 h.1)
      ]

  pub walk_fallback_chain-OfResult :
      (hops : List (Hop × Run n Reply)) (b : Breakers)
      → All Answers hops
      → OfResult (walk_fallback_chain n Reply mentions_network hops b).0.result
  unfolding walk_fallback_chain
  walk_fallback_chain-OfResult hops b h = walk_from-OfResult (last_method n Reply hops) [] hops b h

succeeded≢failed : succeeded ≢ failed
succeeded≢failed e = cc

module _ (n : Numbers) where
  -- One score for each of so many candidates.
  abbrev pub HasScores : ℕ → Reply n → Type 0
  HasScores k (rerank_reply scores) = length scores ≡ k
  HasScores k _ = ⊥

  module _ (readers : Readers n) (providers : Providers n) (input : AdapterInvokeInput n)
      (query : String) (candidates : List String) (content : Option String) where
    -- The input, as that of a reranking.
    abbrev pub reranking : AdapterInvokeInput n
    reranking = record input { request = rerank_request query candidates content }

    abbrev Scored : CapabilityInvokeResult n → Type 0
    Scored result = HasScores (length candidates) result.reply

    openai_answer-Scored :
        (result : HopResult n (CapabilityInvokeResult n))
        → openai_answer n readers providers reranking ≡ ok result
        → Scored result.reply
    unfolding openai_answer parse_reply result_with
    openai_answer-Scored result h =
        elim (Result-cases (providers.complete_prompt (completion_request n readers reranking))) [
          | inr (e, thrown) ↦ absurd (ok≢err (sym (rw thrown at h)))
          | inl (response, answered) ↦
              subst (λ r. Scored r.reply) (ok-injective (rw answered at h))
                (length-parse_rerank_scores n readers response.text (length candidates))
        ]

    deterministic_answer-Scored :
        (result : HopResult n (CapabilityInvokeResult n))
        → Path
            (Result Thrown (HopResult n (CapabilityInvokeResult n)))
            (ok (deterministic_answer n readers reranking))
            (ok result)
        → Scored result.reply
    unfolding deterministic_answer build_deterministic_result result_with deterministic_reply
    deterministic_answer-Scored result h =
        subst (λ r. Scored r.reply) (ok-injective h)
          (length-map (λ candidate. n.of_nat 0) candidates)

    with_reply :
        (P : CapabilityInvokeResult n → Type 0) (found : Option (CapabilityInvokeResult n))
        (reply : CapabilityInvokeResult n)
        → found ≡ some reply
        → OfResult n (CapabilityInvokeResult n) P readers.mentions_network found
        → P reply
    with_reply P found reply e h = rw e at h

    -- A reranking always gets a result, with as many scores as there are candidates, whatever
    -- OpenAI answers, if it answers at all, and whatever state the breakers are in. This takes a
    -- whole number to be an integer.
    pub openai_invoke-Scored :
        (whole : WholeNumbers n) (b : Breakers)
        → (result : CapabilityInvokeResult n) × ((openai_invoke n readers providers reranking
              b).0.result
            ≡ some result)
          × HasScores (length candidates) result.reply
    unfolding openai_invoke
    openai_invoke-Scored whole b =
        let outcome = (openai_invoke n readers providers reranking b).0 in
        let scored =
          walk_fallback_chain-OfResult n (CapabilityInvokeResult n) Scored readers.mentions_network
            ((openai_hop n readers reranking, openai_run n readers providers reranking)
              ∷ (
                deterministic_hop n readers reranking,
                deterministic_run n readers providers reranking,
              )
              ∷ [])
            b (openai_answer-Scored, (deterministic_answer-Scored, tt)) in
        let good = openai_invoke-succeeds n whole readers providers reranking b in
        elim (openai_invoke-Accountable n whole readers providers reranking b).answers [
          | inl bad ↦ absurd (succeeded≢failed (sym good ∙ bad))
          | inr (ok_status, (reply, e)) ↦
              (reply, e, with_reply Scored outcome.result reply e scored)
        ]
