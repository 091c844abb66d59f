-- ===== src/Ai/Adapters/Invoke.antt =====
-- `invoke` of the three adapters.
use dhund_research_ai.Ai.AdapterErrors.{Thrown, adapter_error, terminal}
use dhund_research_ai.Ai.Requests.{
  is_interactive_capability, GatewayRequest, capability_of, EmbedInputType, embed_dimension, openai,
  embed_request, voyage, ocr_request,
}
use dhund_research_ai.Ai.Adapters.Replies.{build_deterministic_result, result_with, parse_reply}
use dhund_research_ai.Ai.Adapters.{
  Readers, AdapterInvokeInput, Providers, CapabilityInvokeResult, embed_reply,
  OpenAiCompletionRequest,
}
use dhund_research_ai.Ai.Fallback.{
  Numbers, Breakers, walk_fallback_chain, InvokeOutcome, Hop, HopResult, llm, deterministic, Run,
}
use dhund_research_ai.Base.{
  ℕ, ◌*◌, Bool, true, false, String, Option, none, some, List, [], ◌∷◌, Result, ok, guard, ltb,
  length, ◌==◌, ◌>>◌, ◌>>=◌,
}

module _ (n : Numbers) (readers : Readers n) where
  abbrev pub completion_request : AdapterInvokeInput n → OpenAiCompletionRequest n
  completion_request input = record {
    model = input.policy.model_id;
    system_prompt = input.payload.system_prompt;
    user_payload = input.payload.user_payload;
    stream = is_interactive_capability (capability_of input.request);
  }

  -- The hop that asks OpenAI; 15 micros for each token.
  unfoldable pub openai_answer :
      Providers n → AdapterInvokeInput n → Result Thrown (HopResult n (CapabilityInvokeResult n))
  unfolding is_interactive_capability capability_of parse_reply result_with
  openai_answer providers input = do
    response ← providers.complete_prompt (completion_request input)
    let cost = n.multiply (n.add response.tokens_in response.tokens_out) (n.of_nat 15)
    reply ← parse_reply n readers input.request response.text
    ok (record {
      reply =
          result_with n input
            (record {
              latency_ms = response.latency_ms;
              tokens_in = response.tokens_in;
              tokens_out = response.tokens_out;
              cost_micros = cost;
            })
            reply;
      tokens_in = response.tokens_in;
      tokens_out = response.tokens_out;
      cost_micros = cost;
      latency_ms = response.latency_ms;
    })

  abbrev pub openai_hop : AdapterInvokeInput n → Hop
  openai_hop input = record {
    provider = openai;
    model = input.policy.model_id;
    method = llm;
    skip_breaker = false;
  }

  abbrev pub deterministic_hop : AdapterInvokeInput n → Hop
  deterministic_hop input = record {
    provider = openai;
    model = input.policy.model_id;
    method = deterministic;
    skip_breaker = true;
  }

  unfoldable pub deterministic_answer :
      AdapterInvokeInput n → HopResult n (CapabilityInvokeResult n)
  unfolding build_deterministic_result
  deterministic_answer input = record {
    reply = build_deterministic_result n input;
    tokens_in = n.of_nat 0;
    tokens_out = n.of_nat 0;
    cost_micros = n.of_nat 0;
    latency_ms = n.of_nat 1;
  }

  abbrev pub openai_run : Providers n → AdapterInvokeInput n → Run n (CapabilityInvokeResult n)
  openai_run providers input = record {
    answer = openai_answer providers input;
    timing = providers.timing;
  }

  abbrev pub deterministic_run :
      Providers n → AdapterInvokeInput n → Run n (CapabilityInvokeResult n)
  deterministic_run providers input = record {
    answer = ok (deterministic_answer input);
    timing = providers.fallback_timing;
  }

  unfoldable pub openai_invoke :
      Providers n
      → AdapterInvokeInput n
      → Breakers
      → InvokeOutcome n (CapabilityInvokeResult n) × Breakers
  unfolding walk_fallback_chain
  openai_invoke providers input breakers =
      walk_fallback_chain n (CapabilityInvokeResult n) readers.mentions_network
        ((openai_hop input, openai_run providers input)
          ∷ (deterministic_hop input, deterministic_run providers input)
          ∷ [])
        breakers

  unfoldable pub check_vectors : List (List n.Number) → Result Thrown (Unit {0})
  check_vectors [] = ok tt
  check_vectors (vector ∷ vectors) =
      guard (length vector == embed_dimension) (adapter_error terminal) >> check_vectors vectors

  -- The hop that asks Voyage; 10 micros for each token.
  unfoldable pub voyage_answer :
      Providers n
      → AdapterInvokeInput n
      → List String
      → Option EmbedInputType
      → Result Thrown (HopResult n (CapabilityInvokeResult n))
  unfolding check_vectors result_with
  voyage_answer providers input texts input_type = do
    response ← providers.embed_texts input.policy.model_id texts input_type
    check_vectors response.vectors
    let cost = n.multiply response.tokens_in (n.of_nat 10)
    ok (record {
      reply =
          result_with n input
            (record {
              latency_ms = response.latency_ms;
              tokens_in = response.tokens_in;
              tokens_out = n.of_nat 0;
              cost_micros = cost;
            })
            (embed_reply response.vectors input_type);
      tokens_in = response.tokens_in;
      tokens_out = n.of_nat 0;
      cost_micros = cost;
      latency_ms = response.latency_ms;
    })

  abbrev pub voyage_hop : AdapterInvokeInput n → Hop
  voyage_hop input = record {
    provider = voyage;
    model = input.policy.model_id;
    method = llm;
    skip_breaker = false;
  }

  abbrev pub voyage_run :
      Providers n
      → AdapterInvokeInput n
      → List String
      → Option EmbedInputType
      → Run n (CapabilityInvokeResult n)
  voyage_run providers input texts input_type = record {
    answer = voyage_answer providers input texts input_type;
    timing = providers.timing;
  }

  unfoldable pub voyage_invoke :
      Providers n
      → AdapterInvokeInput n
      → List String
      → Option EmbedInputType
      → Breakers
      → InvokeOutcome n (CapabilityInvokeResult n) × Breakers
  unfolding walk_fallback_chain
  voyage_invoke providers input texts input_type breakers =
      walk_fallback_chain n (CapabilityInvokeResult n) readers.mentions_network
        ((voyage_hop input, voyage_run providers input texts input_type) ∷ []) breakers

  -- `bytes === null || bytes.byteLength === 0`. The bytes are not used.
  unfoldable pub is_present : Option ℕ → Bool
  is_present none = false
  is_present (some size) = ltb 0 size

  unfoldable pub load_ocr_object : Providers n → String → Result Thrown (Unit {0})
  unfolding is_present
  load_ocr_object providers object_key = do
    url ← providers.get_presigned_get_url object_key 120
    bytes ← providers.get_object_bytes object_key (50 * 1024 * 1024)
    guard (is_present bytes) (adapter_error terminal)

  -- The adapter that `AdapterRegistry.get` finds for the request, which has its capability.
  unfoldable pub invoke :
      Providers n
      → AdapterInvokeInput n
      → GatewayRequest
      → Breakers
      → Result Thrown (InvokeOutcome n (CapabilityInvokeResult n) × Breakers)
  unfolding openai_invoke voyage_invoke load_ocr_object
  invoke providers input (embed_request texts input_type dimensions) breakers =
      ok (voyage_invoke providers input texts input_type breakers)
  invoke providers input (ocr_request object_key) breakers =
      load_ocr_object providers object_key >> ok (openai_invoke providers input breakers)
  invoke providers input _ breakers = ok (openai_invoke providers input breakers)
