-- ===== src/Ai/Gateway/Outcomes.antt =====
-- What the adapters' outcomes have in common.
use dhund_research_ai.Ai.Fallback.Ends.{walk_fallback_chain-Ends, walk_fallback_chain-succeeds}
use dhund_research_ai.Ai.Fallback.Attempts.{failed_then, no_hops, AllFailed, Exhausted, Answered}
use dhund_research_ai.Ai.AdapterErrors.{Thrown}
use dhund_research_ai.Ai.Requests.{
  EmbedInputType, GatewayRequest, embed_request, ocr_request, chat_request, rerank_request,
  autocomplete_request, extract_cell_request, screening_request, stance_request, synthesis_request,
  evidence_extract_request,
}
use dhund_research_ai.Ai.Adapters.Invoke.{
  openai_invoke, voyage_invoke, deterministic_answer, deterministic_hop, openai_hop, voyage_hop,
  openai_run, voyage_run, deterministic_run, invoke, load_ocr_object,
}
use dhund_research_ai.Ai.Adapters.{Readers, Providers, AdapterInvokeInput, CapabilityInvokeResult}
use dhund_research_ai.Ai.Fallback.{
  Numbers, WholeNumbers, Breakers, InvokeOutcome, Hop, failed_outcome, ok_outcome, ok_attempt,
  failed, Run, Method, succeeded, AttemptOutcome, walk_fallback_chain,
}
use dhund_research_ai.Base.{
  ◌≡◌, refl, sym, ◌∙◌, ◌⊎◌, inl, inr, Bool, true, false, not, List, [], ◌∷◌, String, any, some,
  any-append, subst, Option, Result, ok, ◌>>◌, err,
}

abbrev pub NotEmbed : GatewayRequest → Type 0
NotEmbed (embed_request texts input_type dimensions) = ⊥
NotEmbed _ = Unit

module _ (n : Numbers) (whole : WholeNumbers n) (Reply : Type 0) where
  -- Costs are whole, and a success has a result.
  pub record Accountable (outcome : InvokeOutcome n Reply) : Type 0 where
    pub integer : n.is_integer outcome.cost_micros ≡ true
    pub attempts : any (λ attempt. not (n.is_integer attempt.cost_micros)) outcome.attempts ≡ false
    pub answers :
        (outcome.status ≡ failed)
        ⊎ ((outcome.status ≡ succeeded) × ((reply : Reply) × (outcome.result ≡ some reply)))

  failures-whole :
      (mentions_network : String → Bool) (hops : List (Hop × Run n Reply))
      (attempts : List (AttemptOutcome n Reply)) (b last : Breakers)
      → AllFailed n Reply mentions_network hops attempts b last
      → any (λ attempt. not (n.is_integer attempt.cost_micros)) attempts ≡ false
  failures-whole mentions_network hops attempts b last (no_hops _) = refl
  failures-whole mentions_network hops attempts b last
        (failed_then hop run attempt {hops = hs} {attempts = rest} _ _ f fs) =
      rw (f.cost, whole.of_nat-is_integer 0) (failures-whole mentions_network hs rest _ last fs)

  Answered-Accountable :
      (mentions_network : String → Bool) (hops : List (Hop × Run n Reply)) (b : Breakers)
      (outcome : InvokeOutcome n Reply)
      → Answered n Reply mentions_network hops b [] outcome
      → Accountable outcome
  unfolding ok_outcome ok_attempt
  Answered-Accountable mentions_network hops b outcome a =
      subst Accountable (sym a.is_outcome) (record {
        integer = a.whole;
        attempts =
            any-append _ a.attempts _
            ∙ rw
                (
                  failures-whole mentions_network a.before a.attempts b a.reached a.failures,
                  a.whole,
                )
                refl;
        answers = inr (refl, (a.result.reply, refl));
      })

  Exhausted-Accountable :
      (mentions_network : String → Bool) (hops : List (Hop × Run n Reply)) (b : Breakers)
      (method : Method) (outcome : InvokeOutcome n Reply)
      → Exhausted n Reply mentions_network hops b method [] outcome
      → Accountable outcome
  unfolding failed_outcome
  Exhausted-Accountable mentions_network hops b method outcome a =
      subst Accountable (sym a.is_outcome) (record {
        integer = whole.of_nat-is_integer 0;
        attempts = failures-whole mentions_network hops a.attempts b a.reached a.failures;
        answers = inl refl;
      })

  pub walk_fallback_chain-Accountable :
      (mentions_network : String → Bool) (hops : List (Hop × Run n Reply)) (b : Breakers)
      → Accountable (walk_fallback_chain n Reply mentions_network hops b).0
  walk_fallback_chain-Accountable mentions_network hops b =
      elim (walk_fallback_chain-Ends n Reply mentions_network hops b) [
        | inl a ↦ Answered-Accountable mentions_network hops b _ a
        | inr a ↦ Exhausted-Accountable mentions_network hops b _ _ a
      ]

module _ (n : Numbers) (whole : WholeNumbers n) (readers : Readers n) (providers : Providers n)
    (input : AdapterInvokeInput n) where
  -- The fallback answers where OpenAI does not.
  pub openai_invoke-succeeds :
      (b : Breakers) → (openai_invoke n readers providers input b).0.status ≡ succeeded
  unfolding openai_invoke deterministic_answer
  openai_invoke-succeeds b =
      walk_fallback_chain-succeeds n (CapabilityInvokeResult n) readers.mentions_network
        ((openai_hop n readers input, openai_run n readers providers input) ∷ [])
        (deterministic_hop n readers input) (deterministic_run n readers providers input) []
        (deterministic_answer n readers input) b refl refl (whole.of_nat-is_integer 0)

  pub openai_invoke-Accountable :
      (b : Breakers)
      → Accountable n whole (CapabilityInvokeResult n) (openai_invoke n readers providers input b).0
  unfolding openai_invoke
  openai_invoke-Accountable b =
      walk_fallback_chain-Accountable n whole (CapabilityInvokeResult n) readers.mentions_network
        ((openai_hop n readers input, openai_run n readers providers input)
          ∷ (deterministic_hop n readers input, deterministic_run n readers providers input)
          ∷ [])
        b

  voyage_invoke-Accountable :
      (texts : List String) (input_type : Option EmbedInputType) (b : Breakers)
      → Accountable n whole
          (CapabilityInvokeResult n)
          (voyage_invoke n readers providers input texts input_type b).0
  unfolding voyage_invoke
  voyage_invoke-Accountable texts input_type b =
      walk_fallback_chain-Accountable n whole (CapabilityInvokeResult n) readers.mentions_network
        ((voyage_hop n readers input, voyage_run n readers providers input texts input_type) ∷ []) b

  -- An error of the storage, or else an outcome.
  abbrev pub Invoked :
      (P : InvokeOutcome n (CapabilityInvokeResult n) → Type 0)
      → Result Thrown (InvokeOutcome n (CapabilityInvokeResult n) × Breakers)
      → Type 0
  Invoked P (ok (outcome, b)) = P outcome
  Invoked P (err e) = Unit

  unless_missing :
      (P : InvokeOutcome n (CapabilityInvokeResult n) → Type 0) (loaded : Result Thrown (Unit {0}))
      (p : InvokeOutcome n (CapabilityInvokeResult n) × Breakers)
      → P p.0
      → Invoked P (loaded >> ok p)
  unless_missing P (ok u) p h = h
  unless_missing P (err e) p h = tt

  pub invoke-Accountable :
      (request : GatewayRequest) (b : Breakers)
      → Invoked
          (Accountable n whole (CapabilityInvokeResult n))
          (invoke n readers providers input request b)
  unfolding invoke
  invoke-Accountable (embed_request texts input_type dimensions) b =
      voyage_invoke-Accountable texts input_type b
  invoke-Accountable (ocr_request object_key) b =
      unless_missing _ (load_ocr_object n readers providers object_key) _
        (openai_invoke-Accountable b)
  invoke-Accountable (chat_request request) b = openai_invoke-Accountable b
  invoke-Accountable (rerank_request text candidates content) b = openai_invoke-Accountable b
  invoke-Accountable (autocomplete_request text content) b = openai_invoke-Accountable b
  invoke-Accountable (extract_cell_request column content) b = openai_invoke-Accountable b
  invoke-Accountable (screening_request criteria content) b = openai_invoke-Accountable b
  invoke-Accountable (stance_request claim content) b = openai_invoke-Accountable b
  invoke-Accountable (synthesis_request summaries content) b = openai_invoke-Accountable b
  invoke-Accountable (evidence_extract_request content catalog) b = openai_invoke-Accountable b

  pub invoke-succeeds :
      (request : GatewayRequest) (b : Breakers)
      → NotEmbed request
      → Invoked (λ outcome. outcome.status ≡ succeeded) (invoke n readers providers input request b)
  unfolding invoke
  invoke-succeeds (embed_request texts input_type dimensions) b h = absurd h
  invoke-succeeds (ocr_request object_key) b h =
      unless_missing (λ outcome. outcome.status ≡ succeeded)
        (load_ocr_object n readers providers object_key) (openai_invoke n readers providers input b)
        (openai_invoke-succeeds b)
  invoke-succeeds (chat_request request) b h = openai_invoke-succeeds b
  invoke-succeeds (rerank_request text candidates content) b h = openai_invoke-succeeds b
  invoke-succeeds (autocomplete_request text content) b h = openai_invoke-succeeds b
  invoke-succeeds (extract_cell_request column content) b h = openai_invoke-succeeds b
  invoke-succeeds (screening_request criteria content) b h = openai_invoke-succeeds b
  invoke-succeeds (stance_request claim content) b h = openai_invoke-succeeds b
  invoke-succeeds (synthesis_request summaries content) b h = openai_invoke-succeeds b
  invoke-succeeds (evidence_extract_request content catalog) b h = openai_invoke-succeeds b
