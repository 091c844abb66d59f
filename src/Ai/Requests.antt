-- ===== src/Ai/Requests.antt =====
-- What is asked of a model: src/ai/capability.ts, the requests of src/ai/gateway/gateway.types.ts, the
-- policy of src/ai/policy (policy-resolver.ts, capability-routing.ts) and the checks of
-- src/ai/validation. The fields of a request come in the order of the source. A whole number of
-- units of a text is a parameter, `utf16_length`.
use dhund_research_ai.Platform.Runtime.{RuntimeRole, api, worker}
use dhund_research_ai.Base.{
  ℕ, ◌+◌, ◌/◌, Bool, true, false, not, String, Option, none, some, List, [], ◌∷◌, Result, ok, err,
  length, ltb, if◌then◌else◌, ◌==◌, guard, ◌>>◌,
}

pub data AiCapability : Type 0 where
  chat embed rerank extract_cell screening stance synthesis : AiCapability
  ocr evidence_extract autocomplete : AiCapability

-- None where the caller, against the type, gives neither of the two.
pub data EmbedInputType : Type 0 where
  query document : EmbedInputType

pub record EvidenceLocatorCatalogEntry : Type 0 where
  pub document_version_id : String
  pub block_id : String
  pub page : ℕ
  pub chunk_id : Option String

pub record ChatRequest : Type 0 where
  pub user_message : String
  pub document_content : Option String
  pub system_instructions : Option String
  pub retrieval_fingerprint : Option String
  pub retrieval_trace_id : Option String

pub data GatewayRequest : Type 0 where
  chat_request : ChatRequest → GatewayRequest
  embed_request : List String → Option EmbedInputType → Option (List ℕ) → GatewayRequest
  rerank_request : String → List String → Option String → GatewayRequest
  autocomplete_request : String → Option String → GatewayRequest
  extract_cell_request screening_request stance_request : String → String → GatewayRequest
  synthesis_request : List String → Option String → GatewayRequest
  ocr_request : String → GatewayRequest
  evidence_extract_request : String → List EvidenceLocatorCatalogEntry → GatewayRequest

-- `request.capability`.
unfoldable pub capability_of : GatewayRequest → AiCapability
capability_of (chat_request request) = chat
capability_of (embed_request texts input_type dimensions) = embed
capability_of (rerank_request text candidates content) = rerank
capability_of (autocomplete_request text content) = autocomplete
capability_of (extract_cell_request column content) = extract_cell
capability_of (screening_request criteria content) = screening
capability_of (stance_request claim content) = stance
capability_of (synthesis_request summaries content) = synthesis
capability_of (ocr_request object_key) = ocr
capability_of (evidence_extract_request content catalog) = evidence_extract

abbrev pub embed_dimension : ℕ
embed_dimension = 1024

abbrev pub voyage_embed_max_texts : ℕ
voyage_embed_max_texts = 1000

abbrev pub voyage_embed_max_tokens : ℕ
voyage_embed_max_tokens = 320000

pub data PolicyProvider : Type 0 where
  voyage openai : PolicyProvider

pub record PolicyDecision : Type 0 where
  pub capability : AiCapability
  pub provider : PolicyProvider
  pub model_id : String
  pub prompt_version : String
  pub embed_model_version : Option String
  pub dimension : Option ℕ
  pub input_type : Option EmbedInputType

-- A policy of the OpenAI model.
abbrev pub openai_policy : AiCapability → String → PolicyDecision
openai_policy capability prompt_version = record {
  capability = capability;
  provider = openai;
  model_id = "gpt-4o-mini";
  prompt_version = prompt_version;
  embed_model_version = none;
  dimension = none;
  input_type = none;
}

unfoldable pub resolve : GatewayRequest → PolicyDecision
resolve (embed_request texts input_type dimensions) = record {
  capability = embed;
  provider = voyage;
  model_id = "voyage-4";
  prompt_version = "embedding_v1";
  embed_model_version = some "embedding_v1";
  dimension = some embed_dimension;
  input_type = input_type;
}
resolve (chat_request request) = openai_policy chat "chat_v1"
resolve (rerank_request text candidates content) = openai_policy rerank "rerank_v1"
resolve (autocomplete_request text content) = openai_policy autocomplete "autocomplete_v1"
resolve (extract_cell_request column content) = openai_policy extract_cell "extract_cell_v1"
resolve (screening_request criteria content) = openai_policy screening "screening_v1"
resolve (stance_request claim content) = openai_policy stance "stance_v1"
resolve (synthesis_request summaries content) = openai_policy synthesis "synthesis_v1"
resolve (ocr_request object_key) = openai_policy ocr "ocr_v1"
resolve (evidence_extract_request content catalog) =
    openai_policy evidence_extract "evidence_extract_v1"

unfoldable pub build_minimal_request : AiCapability → GatewayRequest
build_minimal_request embed = embed_request ("probe" ∷ []) (some query) none
build_minimal_request chat = chat_request (record {
  user_message = "probe";
  document_content = none;
  system_instructions = none;
  retrieval_fingerprint = none;
  retrieval_trace_id = none;
})
build_minimal_request rerank = rerank_request "probe" ("a" ∷ []) none
build_minimal_request autocomplete = autocomplete_request "probe" none
build_minimal_request extract_cell = extract_cell_request "probe" "probe"
build_minimal_request screening = screening_request "probe" "probe"
build_minimal_request stance = stance_request "probe" "probe"
build_minimal_request synthesis = synthesis_request ("probe" ∷ []) none
build_minimal_request ocr = ocr_request "probe-key"
build_minimal_request evidence_extract = evidence_extract_request "probe" []

unfoldable pub resolve_for_capability : AiCapability → PolicyDecision
unfolding build_minimal_request resolve
resolve_for_capability capability = resolve (build_minimal_request capability)

pub data GatewayErrorCode : Type 0 where
  capability_role_mismatch embed_dimension_mismatch embed_input_type_missing : GatewayErrorCode
  embed_request_cap_exceeded secret_in_payload validation_error : GatewayErrorCode

-- Membership in `INTERACTIVE_CAPABILITIES` and in `BATCH_CAPABILITIES`.
unfoldable pub is_interactive_capability : AiCapability → Bool
is_interactive_capability chat = true
is_interactive_capability autocomplete = true
is_interactive_capability rerank = true
is_interactive_capability _ = false

unfoldable pub is_batch_capability : AiCapability → Bool
is_batch_capability embed = true
is_batch_capability extract_cell = true
is_batch_capability screening = true
is_batch_capability stance = true
is_batch_capability synthesis = true
is_batch_capability ocr = true
is_batch_capability evidence_extract = true
is_batch_capability _ = false

unfoldable pub is_query_embed : GatewayRequest → Bool
is_query_embed (embed_request texts (some query) dimensions) = true
is_query_embed _ = false

-- The call of the gateway, which gives the request and its own capability.
unfoldable pub assert_role_allowed :
    RuntimeRole → GatewayRequest → Result GatewayErrorCode (Unit {0})
unfolding is_query_embed is_interactive_capability is_batch_capability capability_of
assert_role_allowed api request =
    if is_query_embed request
    then ok tt
    else guard (is_interactive_capability (capability_of request)) capability_role_mismatch
assert_role_allowed worker request =
    guard (is_batch_capability (capability_of request)) capability_role_mismatch

-- `Math.ceil(text.length / 4)`, added up.
unfoldable pub estimate_token_count : (String → ℕ) → List String → ℕ
estimate_token_count utf16_length [] = 0
estimate_token_count utf16_length (text ∷ texts) =
    (utf16_length text + 3) / 4 + estimate_token_count utf16_length texts

unfoldable pub check_dimensions : List ℕ → Result GatewayErrorCode (Unit {0})
check_dimensions [] = ok tt
check_dimensions (dimension ∷ dimensions) =
    guard (dimension == embed_dimension) embed_dimension_mismatch >> check_dimensions dimensions

-- The dimensions that the caller expects, if it says so.
unfoldable pub check_expected : Option (List ℕ) → Result GatewayErrorCode (Unit {0})
unfolding check_dimensions
check_expected none = ok tt
check_expected (some dimensions) = check_dimensions dimensions

-- The checks of the texts and of the dimensions.
unfoldable pub check_texts :
    (String → ℕ) → List String → Option (List ℕ) → Result GatewayErrorCode (Unit {0})
unfolding check_expected
check_texts utf16_length texts dimensions =
    guard (ltb 0 (length texts)) validation_error
    >> guard (not (ltb voyage_embed_max_texts (length texts))) embed_request_cap_exceeded
    >> guard (not (ltb voyage_embed_max_tokens (estimate_token_count utf16_length texts)))
        embed_request_cap_exceeded
    >> elim dimensions [ none ↦ ok tt | some ds ↦ check_dimensions ds ]

unfoldable pub validate_gateway_request :
    (String → ℕ) → GatewayRequest → Result GatewayErrorCode (Unit {0})
unfolding check_texts
validate_gateway_request utf16_length (embed_request texts none dimensions) =
    err embed_input_type_missing
validate_gateway_request utf16_length (embed_request texts (some input_type) dimensions) =
    check_texts utf16_length texts dimensions
validate_gateway_request utf16_length _ = ok tt
