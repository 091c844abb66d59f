-- ===== src/Ai/CircuitBreaker/Window.antt =====
-- The sliding window of samples: `pushSample` shifts old samples off the front, which drops
-- exactly the samples that left the window if the clock does not go back.
use dhund_research_ai.Base.{
  ℕ, ◌-◌, ◌≤◌, ◌≡◌, refl, Bool, true, false, List, [], ◌∷◌, ◌++◌, arith, leb, filter,
}
use dhund_research_ai.Ai.CircuitBreaker.{
  Breaker, OutcomeSample, initial, prune, push_sample, record_success, record_failure,
  allow_request, get_state, circuit_window_ms,
}
use dhund_research_ai.Ai.CircuitBreaker.Events.{
  Event, asks, looks, succeeds, fails, step, run, Monotone,
}

-- Oldest first, none before `from`, none after `to`.
abbrev pub Sorted : ℕ → ℕ → List OutcomeSample → Type 0
Sorted from to [] = from ≤ to
Sorted from to (s ∷ ss) = (from ≤ s.at_ms) × Sorted s.at_ms to ss

Sorted-later : (a b t : ℕ) (ss : List OutcomeSample) → b ≤ a → Sorted a t ss → Sorted b t ss
Sorted-later a b t [] h k = omega arith
Sorted-later a b t (s ∷ ss) h k = (omega arith, k.1)

Sorted-until : (a t u : ℕ) (ss : List OutcomeSample) → t ≤ u → Sorted a t ss → Sorted a u ss
Sorted-until a t u [] h k = omega arith
Sorted-until a t u (s ∷ ss) h k = (k.0, Sorted-until s.at_ms t u ss h k.1)

Sorted-push :
    (a t : ℕ) (ss : List OutcomeSample) (s : OutcomeSample)
    → s.at_ms ≡ t
    → Sorted a t ss
    → Sorted a t (ss ++ s ∷ [])
Sorted-push a t [] s e k = (omega arith, omega arith)
Sorted-push a t (x ∷ ss) s e k = (k.0, Sorted-push x.at_ms t ss s e k.1)

prune-Sorted :
    (c a t : ℕ) (ss : List OutcomeSample) → Sorted a t ss → c ≤ t → Sorted c t (prune c ss)
unfolding prune
prune-Sorted c a t [] k h = h
prune-Sorted c a t (s ∷ ss) k h = ground (arith, prune-Sorted c s.at_ms t ss k.1 h)

filter-Sorted :
    (c a t : ℕ) (ss : List OutcomeSample)
    → Sorted a t ss
    → c ≤ a
    → filter (λ s. leb c s.at_ms) ss ≡ ss
filter-Sorted c a t [] k h = refl
filter-Sorted c a t (s ∷ ss) k h = ground (arith, filter-Sorted c s.at_ms t ss k.1)

prune-filter :
    (c a t : ℕ) (ss : List OutcomeSample)
    → Sorted a t ss
    → prune c ss ≡ filter (λ s. leb c s.at_ms) ss
unfolding prune
prune-filter c a t [] k = refl
prune-filter c a t (s ∷ ss) k =
    ground (arith, prune-filter c s.at_ms t ss k.1, filter-Sorted c s.at_ms t ss k.1)

-- The last reading of a history, or `last` if there was none.
abbrev pub clock_after : ℕ → List Event → ℕ
clock_after last [] = last
clock_after last (asks t ∷ es) = clock_after t es
clock_after last (looks t ∷ es) = clock_after t es
clock_after last (succeeds t ∷ es) = clock_after t es
clock_after last (fails p r o ∷ es) = clock_after o es

initial-Sorted : Sorted 0 0 initial.samples
unfolding initial
initial-Sorted = omega arith

push-filter :
    (last now : ℕ) (success : Bool) (b : Breaker)
    → last ≤ now
    → Sorted 0 last b.samples
    → (push_sample now success b).samples
      ≡ filter
          (λ s. leb (now - circuit_window_ms) s.at_ms)
          (b.samples ++ record { at_ms = now; success = success } ∷ [])
unfolding push_sample
push-filter last now success b h k =
    prune-filter (now - circuit_window_ms) 0 now _
      (Sorted-push 0 now b.samples _ refl (Sorted-until 0 last now b.samples h k))

push-Sorted :
    (last now : ℕ) (success : Bool) (b : Breaker)
    → last ≤ now
    → Sorted 0 last b.samples
    → Sorted 0 now (push_sample now success b).samples
unfolding push_sample
push-Sorted last now success b h k = Sorted-later (now - circuit_window_ms) 0 now _ (omega arith) (
    prune-Sorted (now - circuit_window_ms) 0 now _
      (Sorted-push 0 now b.samples _ refl (Sorted-until 0 last now b.samples h k)) (omega arith))

asks-samples : (now : ℕ) (b : Breaker) → (allow_request now b).1.samples ≡ b.samples
unfolding allow_request
asks-samples now b = ground arith

looks-samples : (now : ℕ) (b : Breaker) → (get_state now b).1.samples ≡ b.samples
unfolding get_state
looks-samples now b = ground arith

succeeds-samples :
    (now : ℕ) (b : Breaker) → (record_success now b).samples ≡ (push_sample now true b).samples
unfolding record_success push_sample
succeeds-samples now b = refl

fails-samples :
    (p r o : ℕ) (b : Breaker) → (record_failure p r o b).samples ≡ (push_sample p false b).samples
unfolding record_failure push_sample
fails-samples p r o b = ground arith

run-Sorted :
    (last : ℕ) (es : List Event) (b : Breaker)
    → Monotone last es
    → Sorted 0 last b.samples
    → Sorted 0 (clock_after last es) (run es b).samples
unfolding run step
run-Sorted last [] b m k = k
run-Sorted last (asks t ∷ es) b m k =
    run-Sorted t es _ m.1 (rw (asks-samples t b) (Sorted-until 0 last t b.samples m.0 k))
run-Sorted last (looks t ∷ es) b m k =
    run-Sorted t es _ m.1 (rw (looks-samples t b) (Sorted-until 0 last t b.samples m.0 k))
run-Sorted last (succeeds t ∷ es) b m k =
    run-Sorted t es _ m.1 (rw (succeeds-samples t b) (push-Sorted last t true b m.0 k))
run-Sorted last (fails p r o ∷ es) b m k = run-Sorted o es _ m.3 (
    rw (fails-samples p r o b)
      (Sorted-until 0 p o _ (omega arith) (push-Sorted last p false b m.0 k)))

-- After any history of a new breaker in which the clock never goes back, a new sample leaves
-- exactly the samples of the last 60 seconds: shifting from the front loses none of them and
-- keeps no older one.
pub push-keeps_window :
    (es : List Event) (now : ℕ) (success : Bool)
    → Monotone 0 es
    → clock_after 0 es ≤ now
    → (push_sample now success (run es initial)).samples
      ≡ filter
          (λ s. leb (now - circuit_window_ms) s.at_ms)
          ((run es initial).samples ++ record { at_ms = now; success = success } ∷ [])
push-keeps_window es now success m h =
    push-filter (clock_after 0 es) now success (run es initial) h
      (run-Sorted 0 es initial m initial-Sorted)
