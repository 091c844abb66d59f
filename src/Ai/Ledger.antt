-- ===== src/Ai/Ledger.antt =====
-- The tables that an execution of the gateway reads and writes: `recordAiExecutionLedger` of
-- src/l0/adapters/prisma/prisma-database.adapter.ts, and the audit of refusals. With them, the
-- context of an execution and what it throws (src/ai/gateway).
use dhund_research_ai.Ai.Adapters.{CapabilityInvokeResult}
use dhund_research_ai.Ai.AdapterErrors.{Thrown, AdapterErrorKind}
use dhund_research_ai.Ai.Prompts.{GatewaySecretsContext}
use dhund_research_ai.Platform.Runtime.{RuntimeRole}
use dhund_research_ai.Ai.Requests.{AiCapability, GatewayErrorCode, PolicyDecision}
use dhund_research_ai.Ai.Fallback.{Numbers, AttemptOutcome, Breakers, AttemptStatus, Method}
use dhund_research_ai.Ai.Boundary.{BoundaryRefusalReason}
use dhund_research_ai.Base.{
  ℕ, Bool, true, false, not, ◌&&◌, ◌||◌, String, Option, none, some, List, [], ◌∷◌, ◌++◌, ok, err,
  map, any, str_eq, if◌then◌else◌,
}
use dhund_research_ai.L0.Actions.{Action}

pub record GatewayContext : Type 0 where
  pub org_id : String
  pub project_id : Option String
  pub research_run_id : Option String
  pub correlation_id : String
  pub runtime_role : RuntimeRole
  pub declared_clinical : Bool
  pub secrets_context : GatewaySecretsContext

-- What `execute` throws.
pub data GatewayFault : Type 0 where
  boundary_violation : BoundaryRefusalReason → GatewayFault
  gateway_error : GatewayErrorCode → GatewayFault
  -- An error out of the adapter, of `assertIntegerMicros`, and of the ledger.
  adapter_fault : Thrown → GatewayFault
  micros_fault ledger_failed : GatewayFault
  -- GatewayExecutionFailedError: the execution's id and the attempts' errors.
  execution_failed : String → List AdapterErrorKind → GatewayFault
  missing_result : GatewayFault

-- The audit event of a refusal.
pub record Refusal : Type 0 where
  pub org_id : String
  pub project_id : Option String
  pub research_run_id : Option String
  pub correlation_id : String
  pub capability : AiCapability
  pub reason : BoundaryRefusalReason

module _ (n : Numbers) where
  pub record AttemptRecord : Type 0 where
    pub id : String
    pub attempt_no : ℕ
    pub outcome : AttemptOutcome n (CapabilityInvokeResult n)

  -- The policy stands for the capability, the provider, the model and the version of the prompt.
  pub record LedgerRecord : Type 0 where
    pub id : String
    pub org_id : String
    pub project_id : Option String
    pub research_run_id : Option String
    pub retrieval_trace_id : Option String
    pub policy : PolicyDecision
    pub input_fingerprint : String
    pub status : AttemptStatus
    pub method : Method
    pub tokens_in : n.Number
    pub tokens_out : n.Number
    pub cost_micros : n.Number
    pub latency_ms : n.Number
    pub correlation_id : String
    pub attempts : List AttemptRecord

  pub record ResearchRun : Type 0 where
    pub id : String
    pub consumed_micros : n.Number

  pub record Store : Type 0 where
    pub breakers : Breakers
    pub executions : List LedgerRecord
    pub research_runs : List ResearchRun
    pub refusals : List Refusal

  abbrev pub Executing : Type 0 → Type 0
  Executing A = Action Store GatewayFault A

  -- `input.researchRunId !== undefined && input.costMicros > 0`, of a run.
  unfoldable pub charges : LedgerRecord → String → Bool
  charges row run_id = elim row.research_run_id [
    | none ↦ false
    | some id ↦ n.is_above_zero row.cost_micros && str_eq id run_id
  ]

  -- The increment of `consumedMicros`.
  unfoldable pub charge : LedgerRecord → ResearchRun → ResearchRun
  unfolding charges
  charge row run =
      if charges row run.id
      then record run { consumed_micros = n.add run.consumed_micros row.cost_micros }
      else run

  -- An update of a run that there is not throws.
  unfoldable pub can_charge : LedgerRecord → List ResearchRun → Bool
  unfolding charges
  can_charge row runs = elim row.research_run_id [
    | none ↦ true
    | some id ↦ not (n.is_above_zero row.cost_micros) || any (λ run. charges row run.id) runs
  ]

  -- One transaction: an error leaves the tables.
  unfoldable pub record_ai_execution_ledger : Bool → LedgerRecord → Executing (Unit {0})
  unfolding charge can_charge
  record_ai_execution_ledger answers row s =
      if answers && can_charge row s.research_runs
      then (
        ok tt,
        record s {
          executions = s.executions ++ row ∷ [];
          research_runs = map (charge row) s.research_runs;
        },
      )
      else (err ledger_failed, s)
