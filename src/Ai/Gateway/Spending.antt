-- ===== src/Ai/Gateway/Spending.antt =====
-- What the runs have consumed, over any number of executions.
use dhund_research_ai.Ai.Gateway.Ended.{execute-Ends}
use dhund_research_ai.Ai.Ledger.{ResearchRun, Store, LedgerRecord, charges, charge, GatewayContext}
use dhund_research_ai.Ai.Boundary.{Value}
use dhund_research_ai.Ai.Requests.{GatewayRequest}
use dhund_research_ai.Ai.Gateway.{execute, World}
use dhund_research_ai.Ai.Fallback.{Numbers, WholeNumbers}
use dhund_research_ai.Base.{
  ◌≡◌, refl, sym, ap, inl, inr, List, [], ◌∷◌, ◌++◌, String, map, Bool-cases, if◌then◌else◌,
}

-- One call of `execute`.
pub record Call (n : Numbers) : Type 0 where
  pub world : World n
  pub ctx : GatewayContext
  pub request : GatewayRequest
  pub entries : List (String × Value)

module _ (n : Numbers) where
  -- The calls in the order in which they reach the ledger.
  unfoldable pub execute_all : List (Call n) → Store n → Store n
  unfolding execute
  execute_all [] s = s
  execute_all (call ∷ calls) s =
      execute_all calls (execute n call.world call.ctx call.request call.entries s).1

  -- `from` and the costs above zero of the records that name the run, from the left.
  unfoldable pub spent : String → n.Number → List (LedgerRecord n) → n.Number
  unfolding charges
  spent run_id from [] = from
  spent run_id from (row ∷ rows) =
      spent run_id (if charges n row run_id then n.add from row.cost_micros else from) rows

  unfoldable pub having_spent : List (LedgerRecord n) → ResearchRun n → ResearchRun n
  unfolding spent
  having_spent rows run = record run { consumed_micros = spent run.id run.consumed_micros rows }

  spent-snoc :
      (run_id : String) (rows : List (LedgerRecord n)) (from : n.Number) (row : LedgerRecord n)
      → spent run_id from (rows ++ row ∷ []) ≡ (
          if charges n row run_id
          then n.add (spent run_id from rows) row.cost_micros
          else spent run_id from rows)
  unfolding spent
  spent-snoc run_id [] from row = refl
  spent-snoc run_id (first ∷ rows) from row = spent-snoc run_id rows _ row

  charge-having_spent :
      (rows : List (LedgerRecord n)) (row : LedgerRecord n) (run : ResearchRun n)
      → charge n row (having_spent rows run) ≡ having_spent (rows ++ row ∷ []) run
  unfolding charge having_spent
  charge-having_spent rows row run =
      let e = spent-snoc run.id rows run.consumed_micros row in
      elim (Bool-cases (charges n row run.id)) [
        | inl c ↦ rw c (ap (λ m. record run { consumed_micros = m }) (sym (rw c at e)))
        | inr c ↦ rw c (ap (λ m. record run { consumed_micros = m }) (sym (rw c at e)))
      ]

  charge_all-having_spent :
      (rows : List (LedgerRecord n)) (row : LedgerRecord n) (runs : List (ResearchRun n))
      → map (charge n row) (map (having_spent rows) runs)
        ≡ map (having_spent (rows ++ row ∷ [])) runs
  charge_all-having_spent rows row [] = refl
  charge_all-having_spent rows row (run ∷ runs) =
      rw (charge-having_spent rows row run, charge_all-having_spent rows row runs) refl

  module _ (whole : WholeNumbers n) (runs : List (ResearchRun n)) where
    abbrev pub Reconciled : Store n → Type 0
    Reconciled s = s.research_runs ≡ map (having_spent s.executions) runs

    execute-Reconciled :
        (call : Call n) (s : Store n)
        → Reconciled s
        → Reconciled (execute n call.world call.ctx call.request call.entries s).1
    execute-Reconciled call s h =
        elim (execute-Ends n whole call.world call.ctx call.request call.entries s) [
          | inl refused ↦ rw (refused.executions, refused.research_runs) h
          | inr (inl unrecorded) ↦ rw (unrecorded.executions, unrecorded.research_runs) h
          | inr (inr recorded) ↦
              rw (recorded.executions, recorded.research_runs, h)
                (charge_all-having_spent s.executions recorded.row runs)
        ]

    -- Once the runs agree with the ledger, they do so after any calls, whatever each of them ends
    -- in: what a run has consumed is what it began with and, in the order of the ledger, the costs
    -- above zero of the records that name it. None is charged twice, and none is charged without a
    -- record. This takes a whole number to be an integer.
    pub execute_all-Reconciled :
        (calls : List (Call n)) (s : Store n) → Reconciled s → Reconciled (execute_all calls s)
    unfolding execute_all
    execute_all-Reconciled [] s h = h
    execute_all-Reconciled (call ∷ calls) s h =
        execute_all-Reconciled calls _ (execute-Reconciled call s h)
