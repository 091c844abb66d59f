-- ===== src/Ai/Adapters.antt =====
-- The adapters of the providers: src/ai/adapters/openai/openai-capability.adapter.ts,
-- voyage/voyage-embed.adapter.ts, ocr and deterministic, as live-adapters.ts registers them. The
-- clients, the storage and the reading of JSON are parameters. Tokens are not streamed.
pub mod Replies
pub mod Invoke
use dhund_research_ai.Ai.AdapterErrors.{Thrown}
use dhund_research_ai.Base.{ℕ, Bool, String, Option, List, Result}
use dhund_research_ai.Ai.Requests.{GatewayRequest, PolicyDecision, PolicyProvider, EmbedInputType}
use dhund_research_ai.Ai.Prompts.{AssembledProviderPayload}
use dhund_research_ai.Ai.Fallback.{Numbers, Timing}

pub record EvidenceExtractCandidate : Type 0 where
  pub text : String
  pub locator : Option (String × String × ℕ)
  pub kind : Option String
  pub chunk_id : Option String

pub data ScreeningDecision : Type 0 where
  include exclude uncertain : ScreeningDecision

pub data GatewayStanceLabel : Type 0 where
  support oppose neutral unresolved : GatewayStanceLabel

module _ (n : Numbers) where
  pub record OcrPage : Type 0 where
    pub page : n.Number
    pub confidence : n.Number
    pub blocks : List (String × n.Number)

  pub record OcrPayload : Type 0 where
    pub text : String
    pub pages : List OcrPage
    pub mean_confidence : n.Number

  -- What is in a result beside its metrics and its provenance.
  pub data Reply : Type 0 where
    chat_reply autocomplete_reply extract_cell_reply synthesis_reply : String → Reply
    embed_reply : List (List n.Number) → Option EmbedInputType → Reply
    rerank_reply : List n.Number → Reply
    screening_reply : ScreeningDecision → Reply
    stance_reply : GatewayStanceLabel → Reply
    ocr_reply : OcrPayload → Reply
    evidence_extract_reply : List EvidenceExtractCandidate → Reply

  pub record Metrics : Type 0 where
    pub latency_ms : n.Number
    pub tokens_in : n.Number
    pub tokens_out : n.Number
    pub cost_micros : n.Number

  pub record CapabilityInvokeResult : Type 0 where
    pub reply : Reply
    pub metrics : Metrics
    pub input_fingerprint : String
    pub prompt_version : String
    pub provider : PolicyProvider
    pub model : String

  pub record AdapterInvokeInput : Type 0 where
    pub request : GatewayRequest
    pub policy : PolicyDecision
    pub payload : AssembledProviderPayload
    pub fingerprint : String

  pub record OpenAiCompletionRequest : Type 0 where
    pub model : String
    pub system_prompt : String
    pub user_payload : String
    pub stream : Bool

  pub record OpenAiCompletionResponse : Type 0 where
    pub text : String
    pub tokens_in : n.Number
    pub tokens_out : n.Number
    pub latency_ms : n.Number

  pub record VoyageEmbedResponse : Type 0 where
    pub vectors : List (List n.Number)
    pub tokens_in : n.Number
    pub latency_ms : n.Number

  -- What the providers and the storage answer during one execution, and when.
  pub record Providers : Type 0 where
    pub complete_prompt : OpenAiCompletionRequest → Result Thrown OpenAiCompletionResponse
    pub embed_texts :
        String → List String → Option EmbedInputType → Result Thrown VoyageEmbedResponse
    pub get_presigned_get_url : String → ℕ → Result Thrown String
    -- The number of bytes.
    pub get_object_bytes : String → ℕ → Result Thrown (Option ℕ)
    pub timing : Timing n
    pub fallback_timing : Timing n

  -- How the text of an answer is read: trimmed, in lower case after that, by a search for a part, and
  -- as JSON: a list of numbers, the pages of a scan, and candidates.
  pub record Readers : Type 0 where
    pub trim : String → String
    pub lower_case : String → String
    pub includes : String → String → Bool
    pub scores_in : String → Option (List n.Number)
    pub parse_ocr_payload : String → OcrPayload
    pub parse_evidence_extract : String → List EvidenceExtractCandidate
    pub mentions_network : String → Bool
