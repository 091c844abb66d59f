-- ===== src/Ai/Gateway.antt =====
-- src/ai/gateway/gateway.service.ts: one execution from the checks to the ledger, with
-- src/ai/boundary/gateway-data-boundary.ts. Metrics and logging are left out.
pub mod Outcomes
pub mod Scores
pub mod Passed
mod Tests
pub mod Recorded
pub mod Ended
pub mod Spending
use dhund_research_ai.Ai.AdapterErrors.{AdapterErrorKind, Thrown}
use dhund_research_ai.Ai.Ledger.{
  AttemptRecord, GatewayContext, GatewayFault, LedgerRecord, Executing, record_ai_execution_ledger,
  adapter_fault, boundary_violation, micros_fault, gateway_error, execution_failed, missing_result,
}
use dhund_research_ai.Platform.Runtime.{RuntimeRole}
use dhund_research_ai.Ai.Prompts.{
  GatewaySecretsContext, Texts, assemble, assert_no_secrets_in_payload,
}
use dhund_research_ai.Ai.Adapters.Invoke.{invoke}
use dhund_research_ai.Ai.Adapters.{
  Providers, AdapterInvokeInput, CapabilityInvokeResult, Readers, Metrics,
}
use dhund_research_ai.Ai.Fallback.{
  Numbers, InvokeOutcome, Breakers, AttemptStatus, AttemptOutcome, Method, failed, succeeded,
}
use dhund_research_ai.Ai.Requests.{
  AiCapability, GatewayRequest, assert_role_allowed, chat_request, GatewayErrorCode, PolicyDecision,
  capability_of, resolve, validate_gateway_request,
}
use dhund_research_ai.Ai.Boundary.{BoundaryRefusalReason, find_boundary_refusal, Value, Patterns}
use dhund_research_ai.Base.{
  ℕ, ◌+◌, Bool, true, false, ◌&&◌, ◌||◌, not, String, Option, none, some, List, [], ◌∷◌, ◌++◌,
  Result, ok, err, map, any, str_eq, if◌then◌else◌,
}
use dhund_research_ai.L0.Actions.{
  Action, ◌>>=◌, ◌>>◌, pure, raise, gets, modify, require, of_result,
}

unfoldable pub trace_id_of : GatewayRequest → Option String
trace_id_of (chat_request request) = request.retrieval_trace_id
trace_id_of _ = none

module _ (n : Numbers) where
  -- The surroundings of one execution: the providers, the texts, the ids that it generates, the time
  -- that it takes, and whether the audit and the database take what is written.
  pub record World : Type 0 where
    pub providers : Providers n
    pub readers : Readers n
    pub texts : Texts
    pub patterns : Patterns
    pub utf16_length : String → ℕ
    pub fingerprint : GatewayRequest → String
    pub execution_id : String
    pub attempt_id : ℕ → String
    pub latency : n.Number
    pub audit_answers : Bool
    pub ledger_answers : Bool

  pub record GatewayResult : Type 0 where
    pub result : CapabilityInvokeResult n
    pub ai_execution_id : String
    pub method : Method
    pub metrics : Metrics n

  -- `attempts.map((attempt, index) => ...)`, from `index`.
  unfoldable pub attempt_records :
      (ℕ → String) → ℕ → List (AttemptOutcome n (CapabilityInvokeResult n)) → List (AttemptRecord n)
  attempt_records attempt_id index [] = []
  attempt_records attempt_id index (attempt ∷ attempts) =
      record { id = attempt_id index; attempt_no = index + 1; outcome = attempt }
      ∷ attempt_records attempt_id (index + 1) attempts

  module _ (world : World) (ctx : GatewayContext) (request : GatewayRequest) where
    -- What `assertAllowed` does with a reason; an audit that fails is passed over.
    unfoldable pub refuse : Option BoundaryRefusalReason → Executing n (Unit {0})
    unfolding capability_of
    refuse none = pure tt
    refuse (some reason) = do
      modify (λ s.
          if world.audit_answers
          then record s {
            refusals =
                s.refusals
                ++ record {
                  org_id = ctx.org_id;
                  project_id = ctx.project_id;
                  research_run_id = ctx.research_run_id;
                  correlation_id = ctx.correlation_id;
                  capability = capability_of request;
                  reason = reason;
                }
                  ∷ [];
          }
          else s)
      raise (boundary_violation reason)

    unfoldable pub assert_allowed : List (String × Value) → Executing n (Unit {0})
    unfolding find_boundary_refusal capability_of refuse
    assert_allowed entries =
        refuse (
          find_boundary_refusal world.patterns ctx.declared_clinical (capability_of request)
            entries)

    -- The checks of the request and of what is made of it.
    unfoldable pub check : Executing n (AdapterInvokeInput n)
    unfolding assert_role_allowed resolve validate_gateway_request assemble
        assert_no_secrets_in_payload
    check = do
      of_result gateway_error (assert_role_allowed ctx.runtime_role request)
      let policy = resolve request
      of_result gateway_error (validate_gateway_request world.utf16_length request)
      let payload = assemble world.texts request policy
      of_result gateway_error (assert_no_secrets_in_payload world.texts payload ctx.secrets_context)
      pure (record {
        request = request;
        policy = policy;
        payload = payload;
        fingerprint = world.fingerprint request;
      })

    -- `adapter.invoke`, which changes the breakers.
    unfoldable pub run_invoked :
        Result Thrown (InvokeOutcome n (CapabilityInvokeResult n) × Breakers)
        → Executing n (InvokeOutcome n (CapabilityInvokeResult n))
    run_invoked (ok (outcome, breakers)) s = (ok outcome, record s { breakers = breakers })
    run_invoked (err e) s = (err (adapter_fault e), s)

    unfoldable pub all_integers : InvokeOutcome n (CapabilityInvokeResult n) → Bool
    all_integers outcome =
        n.is_integer outcome.cost_micros
        && not (any (λ attempt. not (n.is_integer attempt.cost_micros)) outcome.attempts)

    unfoldable pub ledger_record :
        AdapterInvokeInput n → InvokeOutcome n (CapabilityInvokeResult n) → LedgerRecord n
    unfolding attempt_records trace_id_of
    ledger_record input outcome = record {
      id = world.execution_id;
      org_id = ctx.org_id;
      project_id = ctx.project_id;
      research_run_id = ctx.research_run_id;
      retrieval_trace_id = trace_id_of request;
      policy = input.policy;
      input_fingerprint = input.fingerprint;
      status = outcome.status;
      method = outcome.method;
      tokens_in = outcome.tokens_in;
      tokens_out = outcome.tokens_out;
      cost_micros = outcome.cost_micros;
      latency_ms = world.latency;
      correlation_id = ctx.correlation_id;
      attempts = attempt_records world.attempt_id 0 outcome.attempts;
    }

    unfoldable pub attempt_errors :
        List (AttemptOutcome n (CapabilityInvokeResult n)) → List AdapterErrorKind
    attempt_errors [] = []
    attempt_errors (attempt ∷ attempts) = elim attempt.error [
      | none ↦ attempt_errors attempts
      | some error ↦ error ∷ attempt_errors attempts
    ]

    -- What follows the ledger.
    unfoldable pub answer :
        AttemptStatus
        → InvokeOutcome n (CapabilityInvokeResult n)
        → Result GatewayFault GatewayResult
    unfolding attempt_errors
    answer failed outcome =
        err (execution_failed world.execution_id (attempt_errors outcome.attempts))
    answer succeeded outcome = elim outcome.result [
      | none ↦ err missing_result
      | some result ↦ ok (record {
        result = result;
        ai_execution_id = world.execution_id;
        method = outcome.method;
        metrics = record result.metrics { latency_ms = world.latency };
      })
    ]

    -- The part after the checks.
    unfoldable pub execute_checked : AdapterInvokeInput n → Executing n GatewayResult
    unfolding invoke run_invoked all_integers ledger_record record_ai_execution_ledger answer
    execute_checked input = do
      breakers ← gets (λ s. s.breakers)
      outcome ← run_invoked (invoke n world.readers world.providers input request breakers)
      require (all_integers outcome) micros_fault
      record_ai_execution_ledger n world.ledger_answers (ledger_record input outcome)
      of_result (λ e. e) (answer outcome.status outcome)

    -- `entries` is `Object.entries(request)`.
    unfoldable pub execute : List (String × Value) → Executing n GatewayResult
    unfolding assert_allowed check execute_checked
    execute entries = do assert_allowed entries; input ← check; execute_checked input
