-- ===== src/Ai/CircuitBreaker/Tests.antt =====
-- The breaker at work on small histories, and its theorems at concrete inputs.
use dhund_research_ai.Base.{◌-◌, ◌≡◌, ◌≢◌, ◌≤◌, ◌↔◌, ◌⊎◌, refl, true, false, List, [], ◌∷◌, arith}
use dhund_research_ai.Ai.CircuitBreaker.{
  closed, opened, half_open, initial, allow_request, open_circuit, circuit_half_open_after_ms,
  prune, record_failure, failure_rate_exceeded,
}
use dhund_research_ai.Ai.CircuitBreaker.Events.{Event, asks, looks, fails, step, run, admitted}
use dhund_research_ai.Ai.CircuitBreaker.Invariant.{
  Inv, run-initial-Inv, allow_request_iff, one_probe, stays_open,
}

abbrev outage : List Event
outage = fails 1 1 1 ∷ fails 2 2 2 ∷ fails 3 3 3 ∷ fails 4 4 4 ∷ fails 5 5 5 ∷ []

outage_opens : (run outage initial).state ≡ opened
unfolding run step initial prune failure_rate_exceeded record_failure
outage_opens = refl

probe_after_outage : admitted (asks 20 ∷ asks 30005 ∷ asks 30006 ∷ []) (run outage initial) ≡ 1
unfolding run step initial admitted prune failure_rate_exceeded record_failure allow_request
probe_after_outage = refl

run-initial-Inv_example : Inv (run outage initial)
run-initial-Inv_example = run-initial-Inv outage

allow_request_iff_example : ((allow_request 30001 (open_circuit 1 initial)).0 ≡ true) ↔ (
    ((open_circuit 1 initial).state ≡ closed)
    ⊎ (((open_circuit 1 initial).state ≡ half_open)
        × ((open_circuit 1 initial).probe_in_flight ≡ false))
    ⊎ (((open_circuit 1 initial).state ≡ opened)
        × (circuit_half_open_after_ms ≤ 30001 - (open_circuit 1 initial).opened_at_ms)))
allow_request_iff_example = allow_request_iff 30001 (open_circuit 1 initial)

outage-opened : (run outage initial).state ≢ closed
unfolding run step initial prune failure_rate_exceeded record_failure
outage-opened e = cc

one_probe_example :
    admitted (asks 20 ∷ asks 30005 ∷ looks 30006 ∷ asks 30007 ∷ []) (run outage initial) ≤ 1
one_probe_example = one_probe _ (run outage initial) (run-initial-Inv outage) outage-opened tt

stays_open_example :
    let b = open_circuit 1 initial in
    (admitted (asks 2 ∷ fails 3 3 3 ∷ asks 30000 ∷ []) b ≡ 0)
    × ((run (asks 2 ∷ fails 3 3 3 ∷ asks 30000 ∷ []) b).state ≡ opened)
unfolding open_circuit
stays_open_example = stays_open _ (open_circuit 1 initial) refl (omega arith) tt
