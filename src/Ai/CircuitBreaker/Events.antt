-- ===== src/Ai/CircuitBreaker/Events.antt =====
-- Histories of one breaker: the calls that clients make, in the order in which they run.
use dhund_research_ai.Base.{ℕ, suc, ◌≤◌, List, [], ◌∷◌, if◌then◌else◌}
use dhund_research_ai.Ai.CircuitBreaker.{
  Breaker, get_state, allow_request, record_success, record_failure,
}

pub data Event : Type 0 where
  asks looks succeeds : ℕ → Event
  fails : (pushed rated opens : ℕ) → Event

unfoldable pub step : Event → Breaker → Breaker
step (asks now) b = (allow_request now b).1
step (looks now) b = (get_state now b).1
step (succeeds now) b = record_success now b
step (fails pushed rated opens) b = record_failure pushed rated opens b

unfoldable pub run : List Event → Breaker → Breaker
run [] b = b
run (e ∷ es) b = run es (step e b)

-- How many requests a history admits.
unfoldable pub admitted : List Event → Breaker → ℕ
admitted [] b = 0
admitted (asks now ∷ es) b =
    let rest = admitted es (step (asks now) b) in if (allow_request now b).0 then suc rest else rest
admitted (e ∷ es) b = admitted es (step e b)

-- No outcome is recorded: the history only asks and looks.
abbrev pub OnlyAsks : List Event → Type 0
OnlyAsks [] = Unit
OnlyAsks (asks _ ∷ es) = OnlyAsks es
OnlyAsks (looks _ ∷ es) = OnlyAsks es
OnlyAsks (_ ∷ es) = ⊥

abbrev pub NoSuccess : List Event → Type 0
NoSuccess [] = Unit
NoSuccess (succeeds _ ∷ es) = ⊥
NoSuccess (_ ∷ es) = NoSuccess es

abbrev pub failures : List Event → ℕ
failures [] = 0
failures (fails _ _ _ ∷ es) = suc (failures es)
failures (_ ∷ es) = failures es

-- Every reading of the clock lies in the range: no earlier than `from`, before `until`.
abbrev pub Between : ℕ → ℕ → List Event → Type 0
Between from until [] = Unit
Between from until (asks t ∷ es) = (from ≤ t) × (suc t ≤ until) × Between from until es
Between from until (looks t ∷ es) = (from ≤ t) × (suc t ≤ until) × Between from until es
Between from until (succeeds t ∷ es) = (from ≤ t) × (suc t ≤ until) × Between from until es
Between from until (fails p r o ∷ es) = (from ≤ o) × (suc o ≤ until) × Between from until es

-- The readings never go back, and start no earlier than `last`.
abbrev pub Monotone : ℕ → List Event → Type 0
Monotone last [] = Unit
Monotone last (asks t ∷ es) = (last ≤ t) × Monotone t es
Monotone last (looks t ∷ es) = (last ≤ t) × Monotone t es
Monotone last (succeeds t ∷ es) = (last ≤ t) × Monotone t es
Monotone last (fails p r o ∷ es) = (last ≤ p) × (p ≤ r) × (r ≤ o) × Monotone o es
