-- ===== src/Ai/Gateway/Ended.antt =====
-- How an execution ends.
use dhund_research_ai.Ai.Adapters.Invoke.{invoke}
use dhund_research_ai.Ai.Prompts.{assemble, assert_no_secrets_in_payload}
use dhund_research_ai.Ai.Gateway.Recorded.{
  Refused, IsRefusal, Unrecorded, Recorded, record_or_failure,
}
use dhund_research_ai.Ai.Gateway.Outcomes.{invoke-Accountable, NotEmbed, invoke-succeeds}
use dhund_research_ai.Ai.AdapterErrors.{AdapterErrorKind}
use dhund_research_ai.Ai.Adapters.{AdapterInvokeInput}
use dhund_research_ai.L0.Actions.{continue}
use dhund_research_ai.Ai.Boundary.{Value, BoundaryRefusalReason, find_boundary_refusal}
use dhund_research_ai.Ai.Requests.{
  GatewayRequest, GatewayErrorCode, capability_of, resolve, assert_role_allowed,
  validate_gateway_request,
}
use dhund_research_ai.Ai.Ledger.{
  GatewayContext, GatewayFault, Store, boundary_violation, gateway_error, execution_failed,
  adapter_fault,
}
use dhund_research_ai.Ai.Gateway.{
  World, execute_checked, execute, check, refuse, assert_allowed, GatewayResult, run_invoked,
}
use dhund_research_ai.Ai.Fallback.{Numbers, WholeNumbers}
use dhund_research_ai.Base.{
  ◌≡◌, ◌≢◌, refl, subst, ◌⊎◌, inl, inr, List, String, Result, ok, err, Bool-cases, Result-cases,
  Option, none, some,
}

module _ (n : Numbers) (whole : WholeNumbers n) (world : World n) (ctx : GatewayContext)
    (request : GatewayRequest) where
  -- A request that no model answered, or else one whose answer is recorded, or the ledger fails.
  abbrev pub Ends : Store n → Result GatewayFault (GatewayResult n) × Store n → Type 0
  Ends s ended =
      Refused n s ended
      ⊎ Unrecorded n s ended
      ⊎ Recorded n s ended world.execution_id ctx.research_run_id request

  execute_checked-Ends :
      (input : AdapterInvokeInput n) (s : Store n)
      → Ends s (execute_checked n world ctx request input s)
  unfolding execute_checked run_invoked
  execute_checked-Ends input s =
      let accountable =
        invoke-Accountable n whole world.readers world.providers input request s.breakers in
      let succeeds =
        invoke-succeeds n whole world.readers world.providers input request s.breakers in
      elim (Result-cases (invoke n world.readers world.providers input request s.breakers)) [
        | inl ((outcome, b), e) ↦ inr (
            record_or_failure n whole world ctx request input outcome b s e (rw e at accountable)
              (λ other. rw e at succeeds other))
        | inr (e, thrown) ↦ rw thrown (
            inl (record {
              fault = adapter_fault e;
              refusal = tt;
              thrown = refl;
              breakers = refl;
              executions = refl;
              research_runs = refl;
            }))
      ]

  check-cases :
      (s : Store n)
      → ((input : AdapterInvokeInput n) × (check n world ctx request s ≡ (ok input, s)))
        ⊎ ((code : GatewayErrorCode) × (check n world ctx request s
              ≡ (err (gateway_error code), s)))
  unfolding check
  check-cases s =
      let payload = assemble world.texts request (resolve request) in
      elim (Result-cases (assert_role_allowed ctx.runtime_role request)) [
        | inr (code, e) ↦ rw e (inr (code, refl))
        | inl (u, e) ↦ elim (Result-cases (validate_gateway_request world.utf16_length request)) [
          | inr (code, f) ↦ rw (e, f) (inr (code, refl))
          | inl (v, f) ↦
              elim (Result-cases
                (assert_no_secrets_in_payload world.texts payload ctx.secrets_context)) [
                  | inr (code, g) ↦ rw (e, f, g) (inr (code, refl))
                  | inl (w, g) ↦ rw (e, f, g) (inl (_, refl))
                ]
        ]
      ]

  continue_checked-Ends :
      (s : Store n)
      → Ends s (continue (execute_checked n world ctx request) (check n world ctx request s))
  continue_checked-Ends s = elim (check-cases s) [
    | inl (input, e) ↦ rw e (execute_checked-Ends input s)
    | inr (code, e) ↦ rw e (
        inl (record {
          fault = gateway_error code;
          refusal = tt;
          thrown = refl;
          breakers = refl;
          executions = refl;
          research_runs = refl;
        }))
  ]

  refuse-Ends :
      (reason : Option BoundaryRefusalReason) (s : Store n)
      → ((s : Store n)
          → Ends s (continue (execute_checked n world ctx request) (check n world ctx request s)))
      → Ends s (
          continue
            (λ u t. continue (execute_checked n world ctx request) (check n world ctx request t))
            (refuse n world ctx request reason s))
  unfolding refuse
  refuse-Ends none s rest = rest s
  refuse-Ends (some reason) s rest = elim (Bool-cases world.audit_answers) [
    | inl e ↦ rw e (
        inl (record {
          fault = boundary_violation reason;
          refusal = tt;
          thrown = refl;
          breakers = refl;
          executions = refl;
          research_runs = refl;
        }))
    | inr e ↦ rw e (
        inl (record {
          fault = boundary_violation reason;
          refusal = tt;
          thrown = refl;
          breakers = refl;
          executions = refl;
          research_runs = refl;
        }))
  ]

  -- An execution ends in one of three ways. It is refused, by the boundary, by a check or by the
  -- storage, before anything is asked of a model: breakers, ledger and runs are as they were. Or
  -- the ledger does not take its record: the caller gets that error, and ledger and runs are as
  -- they were. Or its record is in the ledger, under the execution's id, and its cost is charged to
  -- its run in the same transaction: the caller gets a result that names the record exactly if the
  -- record says `ok`, and otherwise the error that names it. No answer is lost for want of a result
  -- or for a cost that is not whole. This takes a whole number to be an integer.
  pub execute-Ends :
      (entries : List (String × Value)) (s : Store n)
      → Ends s (execute n world ctx request entries s)
  unfolding execute assert_allowed
  execute-Ends entries s =
      refuse-Ends
        (find_boundary_refusal world.patterns ctx.declared_clinical (capability_of request) entries)
        s continue_checked-Ends

  failed-not-refusal :
      (fault : GatewayFault) (id : String) (errors : List AdapterErrorKind)
      → IsRefusal fault
      → fault ≢ execution_failed id errors
  failed-not-refusal fault id errors refusal e = subst IsRefusal e refusal

  -- Only an embedding is ever told that its execution failed: every other capability has a fallback
  -- that needs no provider, whatever state the breakers are in and whatever the providers answer.
  -- This takes a whole number to be an integer.
  pub execute-answers :
      (entries : List (String × Value)) (s : Store n) (id : String) (errors : List AdapterErrorKind)
      → NotEmbed request
      → (execute n world ctx request entries s).0 ≢ err (execution_failed id errors)
  execute-answers entries s id errors other e = elim (execute-Ends entries s) [
    | inl refused ↦ failed-not-refusal refused.fault id errors refused.refusal cc
    | inr (inl unrecorded) ↦ let thrown = unrecorded.thrown in cc
    | inr (inr recorded) ↦ elim recorded.ends [
      | inl (good, (g, is_ok, is_id)) ↦ cc
      | inr (bad, kinds) ↦ let good = recorded.fallback other in cc
    ]
  ]
