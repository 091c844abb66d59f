-- ===== src/Ai/Gateway/Tests.antt =====
-- Executions at concrete inputs: a chat with a provider that is down, whose answer is recorded, and
-- the theorems applied to it.
use dhund_research_ai.Ai.Gateway.Scores.{reranking, HasScores, openai_invoke-Scored}
use dhund_research_ai.Ai.AdapterErrors.{adapter_error, Thrown, timeout, unavailable}
use dhund_research_ai.Ai.Ledger.{Store, boundary_violation, GatewayContext, execution_failed}
use dhund_research_ai.Ai.Gateway.Ended.{Ends, execute-Ends, execute-answers}
use dhund_research_ai.Platform.Runtime.{api}
use dhund_research_ai.Ai.Adapters.Invoke.{openai_answer, deterministic_answer, openai_invoke}
use dhund_research_ai.Ai.Prompts.{assemble}
use dhund_research_ai.Ai.Gateway.Passed.{Passed, check-Passed}
use dhund_research_ai.Ai.CircuitBreaker.{
  allow_request, initial, record_failure, failure_rate_exceeded, prune,
}
use dhund_research_ai.Ai.Boundary.{Value, string, presigned_url_not_ocr}
use dhund_research_ai.Ai.Requests.{GatewayRequest, chat_request, resolve, openai}
use dhund_research_ai.Ai.Adapters.{
  Readers, OpenAiCompletionResponse, Providers, AdapterInvokeInput, CapabilityInvokeResult,
}
use dhund_research_ai.Ai.Fallback.{
  Numbers, Timing, WholeNumbers, Breakers, Hop, Run, llm, deterministic,
}
use dhund_research_ai.Ai.Gateway.Spending.{
  Call, execute_all, having_spent, Reconciled, execute_all-Reconciled,
}
use dhund_research_ai.Ai.Gateway.{execute, World, check, answer}
use dhund_research_ai.Base.{
  ℕ, ◌+◌, ◌*◌, ◌≡◌, ◌≢◌, refl, Bool, true, false, String, Option, none, some, List, [], ◌∷◌, Result,
  ok, err, ltb, str_eq,
}

-- Numbers that are whole, and one that is not.
abbrev lift : (ℕ → ℕ → ℕ) → Option ℕ → Option ℕ → Option ℕ
lift f (some a) (some b) = some (f a b)
lift f _ _ = none

abbrev whole : Option ℕ → Bool
whole none = false
whole (some k) = true

abbrev positive : Option ℕ → Bool
positive none = false
positive (some k) = ltb 0 k

abbrev numbers : Numbers
numbers = record {
  Number = Option ℕ;
  of_nat = some;
  add = lift (λ a b. a + b);
  multiply = lift (λ a b. a * b);
  is_integer = whole;
  is_above_zero = positive;
}

whole_numbers : WholeNumbers numbers
whole_numbers = record { of_nat-is_integer = λ k. refl }

abbrev times : Timing numbers
times = record {
  asked_at = 10;
  noted_at = 20;
  pushed = 20;
  rated = 20;
  opens = 20;
  elapsed = some 10;
  meanwhile = λ b. b;
}

abbrev providers_with : Result Thrown (OpenAiCompletionResponse numbers) → Providers numbers
providers_with answer = record {
  complete_prompt = λ request. answer;
  embed_texts = λ model texts input_type. err (adapter_error unavailable);
  get_presigned_get_url = λ key ttl. ok "https://storage/object";
  get_object_bytes = λ key limit. ok (some 12);
  timing = times;
  fallback_timing = times;
}

abbrev test_readers : Readers numbers
test_readers = record {
  trim = λ t. t;
  lower_case = λ t. t;
  includes = str_eq;
  scores_in = λ t. none;
  parse_ocr_payload = λ t. record { text = t; pages = []; mean_confidence = none };
  parse_evidence_extract = λ t. [];
  mentions_network = λ t. false;
}

abbrev world_with : String → Result Thrown (OpenAiCompletionResponse numbers) → World numbers
world_with id answer = record {
  providers = providers_with answer;
  readers = test_readers;
  texts = record { includes = str_eq; stringify_catalog = λ catalog. "[]"; decimal = λ k. "0" };
  patterns = record {
    normalize = λ key. key;
    is_http = λ t. str_eq t "https://storage/object";
    has_amz_signature = λ t. false;
    has_signature = λ t. false;
    has_expires = λ t. false;
  };
  utf16_length = λ t. 4;
  fingerprint = λ request. "fingerprint";
  execution_id = id;
  attempt_id = λ k. id;
  latency = some 30;
  audit_answers = true;
  ledger_answers = true;
}

abbrev world_down : World numbers
world_down = world_with "e1" (err (adapter_error unavailable))

abbrev world_up : World numbers
world_up = world_with "e2" (
    ok (record {
      text = "An answer.";
      tokens_in = some 10;
      tokens_out = some 5;
      latency_ms = some 30;
    }))

abbrev context : GatewayContext
context = record {
  org_id = "o1";
  project_id = some "p1";
  research_run_id = some "r1";
  correlation_id = "c1";
  runtime_role = api;
  declared_clinical = false;
  secrets_context = record {
    connector_credential = none;
    refresh_token = none;
    api_key = some "key";
  };
}

abbrev question : GatewayRequest
question = chat_request (record {
  user_message = "Why?";
  document_content = some "Because.";
  system_instructions = none;
  retrieval_fingerprint = none;
  retrieval_trace_id = some "t1";
})

abbrev entries : List (String × Value)
entries = ("userMessage", string "Why?") ∷ ("documentContent", string "Because.") ∷ []

abbrev empty : Store numbers
empty = record {
  breakers = record { voyage_breaker = none; openai_breaker = none };
  executions = [];
  research_runs = record { id = "r1"; consumed_micros = some 100 } ∷ [];
  refusals = [];
}

abbrev calls : List (Call numbers)
calls =
    record { world = world_down; ctx = context; request = question; entries = entries }
    ∷ record { world = world_up; ctx = context; request = question; entries = entries }
    ∷ []

-- The first answer is free, the second costs 15 micros for each of 15 tokens.
runs_after :
    (execute_all numbers calls empty).research_runs
    ≡ record { id = "r1"; consumed_micros = some 325 } ∷ []
unfolding execute_all execute allow_request initial openai_answer deterministic_answer
    record_failure failure_rate_exceeded prune
runs_after = refl

-- A link to the storage is not sent.
refused_url :
    (execute numbers world_up context question
      (("note", string "https://storage/object") ∷ [])
      empty).0
    ≡ err (boundary_violation presigned_url_not_ocr)
unfolding execute
refused_url = refl

abbrev chain : List (Hop × Run numbers String)
chain =
    (
      record { provider = openai; model = "m"; method = llm; skip_breaker = false },
      record { answer = err (adapter_error timeout); timing = times },
    )
    ∷ (
      record { provider = openai; model = "m"; method = deterministic; skip_breaker = true },
      record {
        answer = ok (record {
          reply = "fixed";
          tokens_in = some 0;
          tokens_out = some 0;
          cost_micros = some 0;
          latency_ms = some 1;
        });
        timing = times;
      },
    )
    ∷ []

abbrev breakers : Breakers
breakers = record { voyage_breaker = none; openai_breaker = none }

execute-Ends_example :
    Ends numbers whole_numbers world_down context question empty
      (execute numbers world_down context question entries empty)
execute-Ends_example = execute-Ends numbers whole_numbers world_down context question entries empty

execute-answers_example :
    (execute numbers world_down context question entries empty).0
    ≢ err (execution_failed "e1" (unavailable ∷ []))
execute-answers_example =
    execute-answers numbers whole_numbers world_down context question entries empty "e1"
      (unavailable ∷ []) tt

empty-Reconciled : Reconciled numbers whole_numbers empty.research_runs empty
unfolding having_spent
empty-Reconciled = refl

execute_all-Reconciled_example :
    Reconciled numbers whole_numbers empty.research_runs (execute_all numbers calls empty)
execute_all-Reconciled_example =
    execute_all-Reconciled numbers whole_numbers empty.research_runs calls empty empty-Reconciled

abbrev asked : AdapterInvokeInput numbers
asked = record {
  request = question;
  policy = resolve question;
  payload = assemble world_up.texts question (resolve question);
  fingerprint = "fingerprint";
}

question-passes : (check numbers world_up context question empty).0 ≡ ok asked
unfolding check
question-passes = refl

check-Passed_example : Passed numbers world_up context question asked
check-Passed_example = check-Passed numbers world_up context question empty asked question-passes

openai_invoke-Scored_example :
    (result : CapabilityInvokeResult numbers) × ((openai_invoke numbers test_readers
        (providers_with (err (adapter_error timeout)))
        (reranking numbers test_readers
          (providers_with (err (adapter_error timeout)))
          asked
          "Why?"
          ("a" ∷ "b" ∷ [])
          none)
        breakers).0.result
      ≡ some result)
    × HasScores numbers 2 result.reply
openai_invoke-Scored_example =
    openai_invoke-Scored numbers test_readers (providers_with (err (adapter_error timeout))) asked
      "Why?" ("a" ∷ "b" ∷ []) none whole_numbers breakers
