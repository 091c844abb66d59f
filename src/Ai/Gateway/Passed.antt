-- ===== src/Ai/Gateway/Passed.antt =====
-- What has been made sure of before a model is asked.
use dhund_research_ai.Ai.Ledger.{GatewayContext, Store}
use dhund_research_ai.Platform.Runtime.{RuntimeRole, api, worker}
use dhund_research_ai.Ai.Adapters.{AdapterInvokeInput}
use dhund_research_ai.Ai.Gateway.{World, check}
use dhund_research_ai.Ai.Fallback.{Numbers}
use dhund_research_ai.Ai.Prompts.{
  Texts, leaks, AssembledProviderPayload, GatewaySecretsContext, assert_no_secrets_in_payload,
  assemble, haystack,
}
use dhund_research_ai.Ai.Requests.{
  check_texts, check_dimensions, GatewayRequest, assert_role_allowed, is_query_embed,
  EmbedInputType, embed_request, query, estimate_token_count, is_interactive_capability,
  capability_of, is_batch_capability, chat_request, AiCapability, rerank_request,
  capability_role_mismatch, autocomplete_request, chat, rerank, extract_cell_request, autocomplete,
  screening_request, embed, stance_request, synthesis_request, extract_cell, ocr_request, screening,
  stance, evidence_extract_request, synthesis, document, ocr, evidence_extract,
  validate_gateway_request, check_expected, resolve,
}
use dhund_research_ai.Base.{
  ℕ, ◌≤◌, ◌≡◌, ◌≢◌, refl, sym, ap, inl, inr, true, false, List, [], ◌∷◌, String, ok, arith, some,
  none, Option, length, All, Bool-cases, ltb, ◌==◌, ==_iff, guard, Result-cases, ok≢err,
  ok-injective, eq_iff, subst,
}

-- Which capabilities a process may use: the interactive ones and the embedding of queries in the
-- API, all others in the worker.
pub data Permitted : RuntimeRole → GatewayRequest → Type 0 where
  query_embedding :
      {texts : List String} {dimensions : Option (List ℕ)}
      → Permitted api (embed_request texts (some query) dimensions)
  interactive :
      {request : GatewayRequest}
      → is_interactive_capability (capability_of request) ≡ true
      → Permitted api request
  batch :
      {request : GatewayRequest}
      → is_interactive_capability (capability_of request) ≡ false
      → Permitted worker request

-- The dimensions of the schema, where the caller names them.
abbrev pub KnownDimensions : Option (List ℕ) → Type 0
KnownDimensions none = Unit
KnownDimensions (some dimensions) = All (λ dimension. dimension ≡ 1024) dimensions

-- The limits of an embedding: one text to 1000, at most 320,000 tokens, and the dimensions.
abbrev pub WithinCaps : (String → ℕ) → GatewayRequest → Type 0
WithinCaps utf16_length (embed_request texts input_type dimensions) =
    (1 ≤ length texts)
    × (length texts ≤ 1000)
    × (estimate_token_count utf16_length texts ≤ 320000)
    × KnownDimensions dimensions
WithinCaps utf16_length _ = Unit

-- A secret that the caller named, and that is not empty, is in neither of the prompts.
abbrev pub NoSecret : Texts → AssembledProviderPayload → Option String → Type 0
NoSecret js payload none = Unit
NoSecret js payload (some secret) = secret ≢ "" → js.includes (haystack payload) secret ≡ false

not_interactive :
    (capability : AiCapability)
    → guard (is_batch_capability capability) capability_role_mismatch ≡ ok tt
    → is_interactive_capability capability ≡ false
unfolding is_interactive_capability is_batch_capability
not_interactive chat h = absurd (ok≢err (sym h))
not_interactive rerank h = absurd (ok≢err (sym h))
not_interactive autocomplete h = absurd (ok≢err (sym h))
not_interactive embed h = refl
not_interactive extract_cell h = refl
not_interactive screening h = refl
not_interactive stance h = refl
not_interactive synthesis h = refl
not_interactive ocr h = refl
not_interactive evidence_extract h = refl

permitted :
    (role : RuntimeRole) (request : GatewayRequest)
    → assert_role_allowed role request ≡ ok tt
    → Permitted role request
unfolding assert_role_allowed is_query_embed is_interactive_capability is_batch_capability
    capability_of
permitted api (chat_request request) h = interactive refl
permitted api (rerank_request text candidates content) h = interactive refl
permitted api (autocomplete_request text content) h = interactive refl
permitted api (embed_request texts (some query) dimensions) h = query_embedding
permitted api (embed_request texts (some document) dimensions) h = absurd (ok≢err (sym h))
permitted api (embed_request texts none dimensions) h = absurd (ok≢err (sym h))
permitted api (extract_cell_request column content) h = absurd (ok≢err (sym h))
permitted api (screening_request criteria content) h = absurd (ok≢err (sym h))
permitted api (stance_request claim content) h = absurd (ok≢err (sym h))
permitted api (synthesis_request summaries content) h = absurd (ok≢err (sym h))
permitted api (ocr_request object_key) h = absurd (ok≢err (sym h))
permitted api (evidence_extract_request content catalog) h = absurd (ok≢err (sym h))
permitted worker request h = batch (not_interactive (capability_of request) h)

check_dimensions-known :
    (dimensions : List ℕ)
    → check_dimensions dimensions ≡ ok tt
    → All (λ dimension. dimension ≡ 1024) dimensions
unfolding check_dimensions
check_dimensions-known [] h = tt
check_dimensions-known (dimension ∷ dimensions) h = elim (Bool-cases (dimension == 1024)) [
  | inl e ↦ ((==_iff dimension 1024).0 e, check_dimensions-known dimensions (rw e at h))
  | inr e ↦ absurd (ok≢err (sym (rw e at h)))
]

dimensions_known :
    (dimensions : Option (List ℕ)) → check_expected dimensions ≡ ok tt → KnownDimensions dimensions
unfolding check_expected
dimensions_known none h = tt
dimensions_known (some dimensions) h = check_dimensions-known dimensions h

check_texts-capped :
    (utf16_length : String → ℕ) (texts : List String) (dimensions : Option (List ℕ))
    (input_type : Option EmbedInputType)
    → check_texts utf16_length texts dimensions ≡ ok tt
    → WithinCaps utf16_length (embed_request texts input_type dimensions)
unfolding check_texts
check_texts-capped utf16_length texts dimensions input_type h =
    elim (Bool-cases (ltb 0 (length texts))) [
      | inr e ↦ absurd (ok≢err (sym (rw e at h)))
      | inl some_text ↦ elim (Bool-cases (ltb 1000 (length texts))) [
        | inl e ↦ absurd (ok≢err (sym (rw (some_text, e) at h)))
        | inr few ↦ elim (Bool-cases (ltb 320000 (estimate_token_count utf16_length texts))) [
          | inl e ↦ absurd (ok≢err (sym (rw (some_text, few, e) at h)))
          | inr short ↦ (
            ground arith,
            ground arith,
            ground arith,
            dimensions_known dimensions (rw (some_text, few, short) at h),
          )
        ]
      ]
    ]

leaks-none :
    (js : Texts) (payload : AssembledProviderPayload) (secret : Option String)
    → leaks js (haystack payload) secret ≡ false
    → NoSecret js payload secret
unfolding leaks
leaks-none js payload none h = tt
leaks-none js payload (some secret) h = λ given. ground (arith, (eq_iff secret "").0)

capped :
    (utf16_length : String → ℕ) (request : GatewayRequest)
    → validate_gateway_request utf16_length request ≡ ok tt
    → WithinCaps utf16_length request
unfolding validate_gateway_request
capped utf16_length (embed_request texts none dimensions) h = absurd (ok≢err (sym h))
capped utf16_length (embed_request texts (some input_type) dimensions) h =
    check_texts-capped utf16_length texts dimensions (some input_type) h
capped utf16_length (chat_request request) h = tt
capped utf16_length (rerank_request text candidates content) h = tt
capped utf16_length (autocomplete_request text content) h = tt
capped utf16_length (extract_cell_request column content) h = tt
capped utf16_length (screening_request criteria content) h = tt
capped utf16_length (stance_request claim content) h = tt
capped utf16_length (synthesis_request summaries content) h = tt
capped utf16_length (ocr_request object_key) h = tt
capped utf16_length (evidence_extract_request content catalog) h = tt

pub record SecretFree (js : Texts) (payload : AssembledProviderPayload)
    (secrets : GatewaySecretsContext) : Type 0 where
  pub connector_credential : NoSecret js payload secrets.connector_credential
  pub refresh_token : NoSecret js payload secrets.refresh_token
  pub api_key : NoSecret js payload secrets.api_key

secret_free :
    (js : Texts) (payload : AssembledProviderPayload) (secrets : GatewaySecretsContext)
    → assert_no_secrets_in_payload js payload secrets ≡ ok tt
    → SecretFree js payload secrets
unfolding assert_no_secrets_in_payload
secret_free js payload secrets h =
    let found = leaks js (haystack payload) in
    elim (Bool-cases (found secrets.connector_credential)) [
      | inl e ↦ absurd (ok≢err (sym (rw e at h)))
      | inr no_credential ↦ elim (Bool-cases (found secrets.refresh_token)) [
        | inl e ↦ absurd (ok≢err (sym (rw (no_credential, e) at h)))
        | inr no_token ↦ elim (Bool-cases (found secrets.api_key)) [
          | inl e ↦ absurd (ok≢err (sym (rw (no_credential, no_token, e) at h)))
          | inr no_key ↦ record {
            connector_credential = leaks-none js payload secrets.connector_credential no_credential;
            refresh_token = leaks-none js payload secrets.refresh_token no_token;
            api_key = leaks-none js payload secrets.api_key no_key;
          }
        ]
      ]
    ]

module _ (n : Numbers) (world : World n) (ctx : GatewayContext) (request : GatewayRequest) where
  pub record Passed (input : AdapterInvokeInput n) : Type 0 where
    pub role : Permitted ctx.runtime_role request
    pub caps : WithinCaps world.utf16_length request
    pub prompts : input.payload ≡ assemble world.texts request (resolve request)
    pub secrets : SecretFree world.texts input.payload ctx.secrets_context

  -- What the checks let through to an adapter is of a capability that the process may use, keeps the
  -- limits of an embedding, and has the prompts of the request, in which none of the secrets occurs
  -- that the caller named.
  pub check-Passed :
      (s : Store n) (input : AdapterInvokeInput n)
      → (check n world ctx request s).0 ≡ ok input
      → Passed input
  unfolding check
  check-Passed s input h =
      let payload = assemble world.texts request (resolve request) in
      elim (Result-cases (assert_role_allowed ctx.runtime_role request)) [
        | inr (code, e) ↦ absurd (ok≢err (sym (rw e at h)))
        | inl (tt, e) ↦ elim (Result-cases (validate_gateway_request world.utf16_length request)) [
          | inr (code, f) ↦ absurd (ok≢err (sym (rw (e, f) at h)))
          | inl (tt, f) ↦
              elim (Result-cases
                (assert_no_secrets_in_payload world.texts payload ctx.secrets_context)) [
                  | inr (code, g) ↦ absurd (ok≢err (sym (rw (e, f, g) at h)))
                  | inl (tt, g) ↦
                      let is_input = ok-injective (rw (e, f, g) at h) in
                      let free = secret_free world.texts payload ctx.secrets_context g in
                      record {
                        role = permitted ctx.runtime_role request e;
                        caps = capped world.utf16_length request f;
                        prompts = sym (ap (λ i. i.payload) is_input);
                        secrets =
                            subst (λ p. SecretFree world.texts p ctx.secrets_context)
                              (ap (λ i. i.payload) is_input) free;
                      }
                ]
        ]
      ]
