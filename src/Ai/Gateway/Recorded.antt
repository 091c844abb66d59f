-- ===== src/Ai/Gateway/Recorded.antt =====
-- How an execution ends, and what the ledger then holds.
use dhund_research_ai.Ai.AdapterErrors.{AdapterErrorKind}
use dhund_research_ai.Ai.Ledger.{
  GatewayContext, GatewayFault, Store, LedgerRecord, boundary_violation, charge, ledger_failed,
  execution_failed, record_ai_execution_ledger, gateway_error, can_charge, adapter_fault,
}
use dhund_research_ai.L0.Actions.{of_result}
use dhund_research_ai.Ai.Adapters.Invoke.{invoke}
use dhund_research_ai.Ai.Gateway.Outcomes.{Accountable, NotEmbed}
use dhund_research_ai.Ai.Adapters.{AdapterInvokeInput, CapabilityInvokeResult}
use dhund_research_ai.Ai.Requests.{GatewayRequest}
use dhund_research_ai.Ai.Fallback.{
  Numbers, WholeNumbers, succeeded, failed, InvokeOutcome, Breakers,
}
use dhund_research_ai.Ai.Gateway.{
  World, GatewayResult, execute_checked, answer, ledger_record, run_invoked, all_integers,
  attempt_errors,
}
use dhund_research_ai.Base.{
  ◌≡◌, refl, ◌∙◌, ap, ◌⊎◌, inl, inr, ◌&&◌, List, [], ◌∷◌, ◌++◌, String, Result, ok, err, some,
  Bool-cases, map, Option,
}

-- Faults of a request that no model answered.
abbrev pub IsRefusal : GatewayFault → Type 0
IsRefusal (boundary_violation reason) = Unit
IsRefusal (gateway_error code) = Unit
IsRefusal (adapter_fault e) = Unit
IsRefusal _ = ⊥

module _ (n : Numbers) (before : Store n)
    (ended : Result GatewayFault (GatewayResult n) × Store n) where
  pub record Refused : Type 0 where
    pub fault : GatewayFault
    pub refusal : IsRefusal fault
    pub thrown : ended.0 ≡ err fault
    pub breakers : ended.1.breakers ≡ before.breakers
    pub executions : ended.1.executions ≡ before.executions
    pub research_runs : ended.1.research_runs ≡ before.research_runs

  pub record Unrecorded : Type 0 where
    pub thrown : ended.0 ≡ err ledger_failed
    pub executions : ended.1.executions ≡ before.executions
    pub research_runs : ended.1.research_runs ≡ before.research_runs

  pub record Recorded (id : String) (run_id : Option String) (request : GatewayRequest)
      : Type 0 where
    pub row : LedgerRecord n
    pub is_id : row.id ≡ id
    pub is_run : row.research_run_id ≡ run_id
    pub executions : ended.1.executions ≡ before.executions ++ row ∷ []
    pub research_runs : ended.1.research_runs ≡ map (charge n row) before.research_runs
    pub refusals : ended.1.refusals ≡ before.refusals
    -- Only an embedding can fail, as the others fall back to a fixed answer.
    pub fallback : NotEmbed request → row.status ≡ succeeded
    pub ends :
        ((row.status ≡ succeeded)
          × ((g : GatewayResult n) × (ended.0 ≡ ok g) × (g.ai_execution_id ≡ id)))
        ⊎ ((row.status ≡ failed)
            × ((errors : List AdapterErrorKind) × (ended.0 ≡ err (execution_failed id errors))))

module _ {S E A : Type 0} where
  of_result-result : (r : Result E A) (s : S) → (of_result (λ e. e) r s).0 ≡ r
  of_result-result (ok a) s = refl
  of_result-result (err e) s = refl

  of_result-store : (r : Result E A) (s : S) → (of_result (λ e. e) r s).1 ≡ s
  of_result-store (ok a) s = refl
  of_result-store (err e) s = refl

module _ (n : Numbers) (whole : WholeNumbers n) (world : World n) (ctx : GatewayContext)
    (request : GatewayRequest) where
  answer-failed :
      (outcome : InvokeOutcome n (CapabilityInvokeResult n))
      → outcome.status ≡ failed
      → answer n world ctx request outcome.status outcome
        ≡ err (
            execution_failed world.execution_id
              (attempt_errors n world ctx request outcome.attempts))
  unfolding answer
  answer-failed outcome f = rw f refl

  answer-succeeded :
      (outcome : InvokeOutcome n (CapabilityInvokeResult n)) (result : CapabilityInvokeResult n)
      → outcome.status ≡ succeeded
      → outcome.result ≡ some result
      → (g : GatewayResult n) × (answer n world ctx request outcome.status outcome ≡ ok g)
        × (g.ai_execution_id ≡ world.execution_id)
  unfolding answer
  answer-succeeded outcome result f e = rw (f, e) (_, refl, refl)

  answered-Recorded :
      (input : AdapterInvokeInput n) (outcome : InvokeOutcome n (CapabilityInvokeResult n))
      (b : Breakers) (s : Store n)
      → Accountable n whole (CapabilityInvokeResult n) outcome
      → (NotEmbed request → outcome.status ≡ succeeded)
      → let row = ledger_record n world ctx request input outcome in
        let after : Store n = record s {
          breakers = b;
          executions = s.executions ++ row ∷ [];
          research_runs = map (charge n row) s.research_runs;
        } in
        Recorded n s
          (of_result (λ e. e) (answer n world ctx request outcome.status outcome) after)
          world.execution_id
          ctx.research_run_id
          request
  unfolding ledger_record
  answered-Recorded input outcome b s h good =
      let row = ledger_record n world ctx request input outcome in
      let after : Store n = record s {
        breakers = b;
        executions = s.executions ++ row ∷ [];
        research_runs = map (charge n row) s.research_runs;
      } in
      let r = answer n world ctx request outcome.status outcome in
      let kept = of_result-store r after in
      record {
        row = row;
        is_id = refl;
        is_run = refl;
        executions = ap (λ t. t.executions) kept;
        research_runs = ap (λ t. t.research_runs) kept;
        refusals = ap (λ t. t.refusals) kept;
        fallback = good;
        ends = elim h.answers [
          | inl f ↦ inr (f, (_, of_result-result r after ∙ answer-failed outcome f))
          | inr (f, (reply, e)) ↦
              let (g, is_ok, is_id) = answer-succeeded outcome reply f e in
              inl (f, (g, of_result-result r after ∙ is_ok, is_id))
        ];
      }

  pub record_or_failure :
      (input : AdapterInvokeInput n) (outcome : InvokeOutcome n (CapabilityInvokeResult n))
      (b : Breakers) (s : Store n)
      → invoke n world.readers world.providers input request s.breakers ≡ ok (outcome, b)
      → Accountable n whole (CapabilityInvokeResult n) outcome
      → (NotEmbed request → outcome.status ≡ succeeded)
      → Unrecorded n s (execute_checked n world ctx request input s)
        ⊎ Recorded n s
            (execute_checked n world ctx request input s)
            world.execution_id
            ctx.research_run_id
            request
  unfolding execute_checked run_invoked record_ai_execution_ledger all_integers
  record_or_failure input outcome b s e h good =
      let row = ledger_record n world ctx request input outcome in
      rw (e, h.integer, h.attempts)
        (elim (Bool-cases (world.ledger_answers && can_charge n row s.research_runs)) [
          | inl c ↦ rw c (inr (answered-Recorded input outcome b s h good))
          | inr c ↦ rw c (inl (record { thrown = refl; executions = refl; research_runs = refl }))
        ])
