-- ===== src/Ai/Adapters/Replies.antt =====
-- The results of the adapters: `parseCapabilityResult` of the text that OpenAI answers, and
-- `buildDeterministicResult` of src/ai/adapters/deterministic.
use dhund_research_ai.Ai.AdapterErrors.{Thrown, adapter_error, terminal}
use dhund_research_ai.Ai.Requests.{
  GatewayRequest, chat_request, embed_request, rerank_request, autocomplete_request,
  embed_dimension, extract_cell_request, screening_request, stance_request, synthesis_request,
  ocr_request, evidence_extract_request,
}
use dhund_research_ai.Ai.Adapters.{
  AdapterInvokeInput, Readers, Reply, GatewayStanceLabel, ScreeningDecision, CapabilityInvokeResult,
  Metrics, unresolved, include, chat_reply, support, exclude, uncertain, oppose, neutral,
  rerank_reply, embed_reply, autocomplete_reply, extract_cell_reply, screening_reply, stance_reply,
  synthesis_reply, ocr_reply, evidence_extract_reply,
}
use dhund_research_ai.Base.{
  ℕ, zero, suc, ◌≡◌, refl, ap, String, Option, none, some, List, [], ◌∷◌, length, map, Result, ok,
  err, if◌then◌else◌,
}
use dhund_research_ai.Ai.Fallback.{Numbers}

module _ (n : Numbers) where
  unfoldable pub result_with : AdapterInvokeInput n → Metrics n → Reply n → CapabilityInvokeResult n
  result_with input metrics reply = record {
    reply = reply;
    metrics = metrics;
    input_fingerprint = input.fingerprint;
    prompt_version = input.policy.prompt_version;
    provider = input.policy.provider;
    model = input.policy.model_id;
  }

  -- `Array.from({ length }, () => 0)`.
  unfoldable pub zeros : ℕ → List n.Number
  zeros zero = []
  zeros (suc k) = n.of_nat 0 ∷ zeros k

  -- `parsed.slice(0, expected)`, filled up with zeros.
  unfoldable pub padded : ℕ → List n.Number → List n.Number
  unfolding zeros
  padded zero scores = []
  padded (suc k) [] = zeros (suc k)
  padded (suc k) (score ∷ scores) = score ∷ padded k scores

  -- The scores that were found, or zeros.
  unfoldable pub fill : ℕ → Option (List n.Number) → List n.Number
  unfolding zeros padded
  fill expected none = zeros expected
  fill expected (some scores) = padded expected scores

  unfoldable pub parse_rerank_scores : Readers n → String → ℕ → List n.Number
  unfolding fill
  parse_rerank_scores readers text expected = fill expected (readers.scores_in text)

  unfoldable pub parse_screening : Readers n → String → ScreeningDecision
  parse_screening readers text =
      let normalized = readers.lower_case (readers.trim text) in
      if readers.includes normalized "include"
      then include
      else if readers.includes normalized "exclude"
      then exclude
      else uncertain

  unfoldable pub parse_stance : Readers n → String → GatewayStanceLabel
  parse_stance readers text =
      let normalized = readers.lower_case (readers.trim text) in
      if readers.includes normalized "unresolved"
      then unresolved
      else if readers.includes normalized "support"
      then support
      else if readers.includes normalized "oppose"
      then oppose
      else neutral

  unfoldable pub parse_reply : Readers n → GatewayRequest → String → Result Thrown (Reply n)
  unfolding parse_rerank_scores parse_screening parse_stance
  parse_reply readers (chat_request request) text = ok (chat_reply text)
  parse_reply readers (rerank_request query candidates content) text =
      ok (rerank_reply (parse_rerank_scores readers text (length candidates)))
  parse_reply readers (autocomplete_request prefix content) text = ok (autocomplete_reply text)
  parse_reply readers (extract_cell_request column content) text =
      ok (extract_cell_reply (readers.trim text))
  parse_reply readers (screening_request criteria content) text =
      ok (screening_reply (parse_screening readers text))
  parse_reply readers (stance_request claim content) text =
      ok (stance_reply (parse_stance readers text))
  parse_reply readers (synthesis_request summaries content) text = ok (synthesis_reply text)
  parse_reply readers (ocr_request object_key) text =
      ok (ocr_reply (readers.parse_ocr_payload text))
  parse_reply readers (evidence_extract_request content catalog) text =
      ok (evidence_extract_reply (readers.parse_evidence_extract text))
  parse_reply readers (embed_request texts input_type dimensions) text =
      err (adapter_error terminal)

  unfoldable pub deterministic_reply : GatewayRequest → Reply n
  unfolding zeros
  deterministic_reply (chat_request request) = chat_reply "deterministic-fallback"
  deterministic_reply (embed_request texts input_type dimensions) =
      embed_reply (map (λ text. zeros embed_dimension) texts) input_type
  deterministic_reply (rerank_request query candidates content) =
      rerank_reply (map (λ candidate. n.of_nat 0) candidates)
  deterministic_reply (autocomplete_request prefix content) = autocomplete_reply prefix
  deterministic_reply (extract_cell_request column content) = extract_cell_reply ""
  deterministic_reply (screening_request criteria content) = screening_reply uncertain
  deterministic_reply (stance_request claim content) = stance_reply neutral
  deterministic_reply (synthesis_request summaries content) = synthesis_reply ""
  deterministic_reply (ocr_request object_key) =
      ocr_reply (record { text = ""; pages = []; mean_confidence = n.of_nat 0 })
  deterministic_reply (evidence_extract_request content catalog) = evidence_extract_reply []

  unfoldable pub build_deterministic_result : AdapterInvokeInput n → CapabilityInvokeResult n
  unfolding result_with deterministic_reply
  build_deterministic_result input =
      result_with input
        (record {
          latency_ms = n.of_nat 1;
          tokens_in = n.of_nat 0;
          tokens_out = n.of_nat 0;
          cost_micros = n.of_nat 0;
        })
        (deterministic_reply input.request)

  length-zeros : (k : ℕ) → length (zeros k) ≡ k
  unfolding zeros
  length-zeros zero = refl
  length-zeros (suc k) = ap suc (length-zeros k)

  length-padded : (k : ℕ) (scores : List n.Number) → length (padded k scores) ≡ k
  unfolding padded
  length-padded zero scores = refl
  length-padded (suc k) [] = length-zeros (suc k)
  length-padded (suc k) (score ∷ scores) = ap suc (length-padded k scores)

  length-fill : (k : ℕ) (found : Option (List n.Number)) → length (fill k found) ≡ k
  unfolding fill
  length-fill k none = length-zeros k
  length-fill k (some scores) = length-padded k scores

  pub length-parse_rerank_scores :
      (readers : Readers n) (text : String) (expected : ℕ)
      → length (parse_rerank_scores readers text expected) ≡ expected
  unfolding parse_rerank_scores
  length-parse_rerank_scores readers text expected = length-fill expected (readers.scores_in text)
