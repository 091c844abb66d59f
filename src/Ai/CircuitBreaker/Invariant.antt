-- ===== src/Ai/CircuitBreaker/Invariant.antt =====
-- What holds of a breaker after any history, and what an open breaker lets through.
use dhund_research_ai.Base.{
  ℕ, suc, ◌+◌, ◌-◌, ◌≤◌, ◌<◌, ◌≡◌, ◌≢◌, refl, ◌∙◌, ◌↔◌, ◌⊎◌, Bool, true, false, List, [], ◌∷◌,
  arith, sym, subst,
}
use dhund_research_ai.Ai.CircuitBreaker.{
  Breaker, CircuitState, closed, opened, half_open, initial, allow_request, get_state,
  record_success, record_failure, circuit_half_open_after_ms,
}
use dhund_research_ai.Ai.CircuitBreaker.Events.{
  Event, asks, looks, succeeds, fails, step, run, admitted, OnlyAsks, NoSuccess, failures, Between,
}

pub record Inv (b : Breaker) : Type 0 where
  pub below : b.state ≡ closed → b.consecutive_failures < 5
  pub probing : b.probe_in_flight ≡ true → b.state ≡ half_open

initial-Inv : Inv initial
unfolding initial
initial-Inv = record { below = λ e. omega arith; probing = λ e. cc }

allow_request-Inv : (now : ℕ) (b : Breaker) → Inv b → Inv (allow_request now b).1
unfolding allow_request
allow_request-Inv now b v = ground arith

get_state-Inv : (now : ℕ) (b : Breaker) → Inv b → Inv (get_state now b).1
unfolding get_state
get_state-Inv now b v = ground arith

record_success-Inv : (now : ℕ) (b : Breaker) → Inv (record_success now b)
unfolding record_success
record_success-Inv now b = ground arith

record_failure-Inv :
    (pushed rated opens : ℕ) (b : Breaker) → Inv b → Inv (record_failure pushed rated opens b)
unfolding record_failure
record_failure-Inv pushed rated opens b v = ground arith

step-Inv : (e : Event) (b : Breaker) → Inv b → Inv (step e b)
unfolding step
step-Inv (asks now) b v = allow_request-Inv now b v
step-Inv (looks now) b v = get_state-Inv now b v
step-Inv (succeeds now) b v = record_success-Inv now b
step-Inv (fails p r o) b v = record_failure-Inv p r o b v

run-Inv : (es : List Event) (b : Breaker) → Inv b → Inv (run es b)
unfolding run
run-Inv [] b v = v
run-Inv (e ∷ es) b v = run-Inv es (step e b) (step-Inv e b v)

-- After any history of a new breaker, a closed breaker has counted fewer than five consecutive
-- failures, and a probe is in flight only while the breaker is half open.
pub run-initial-Inv : (es : List Event) → Inv (run es initial)
run-initial-Inv es = run-Inv es initial initial-Inv

-- A request is admitted exactly when the breaker is closed, or it is half open with no probe in
-- flight, or it is open and at least 30 seconds have passed since it opened.
pub allow_request_iff :
    (now : ℕ) (b : Breaker)
    → ((allow_request now b).0 ≡ true) ↔ (
        (b.state ≡ closed)
        ⊎ ((b.state ≡ half_open) × (b.probe_in_flight ≡ false))
        ⊎ ((b.state ≡ opened) × (circuit_half_open_after_ms ≤ now - b.opened_at_ms)))
unfolding allow_request
allow_request_iff now b = ground arith

-- In a breaker that is not closed: how many more requests the history can still admit.
abbrev room : CircuitState → Bool → ℕ
room half_open true = 0
room _ _ = 1

room-le : (s : CircuitState) (p : Bool) → room s p ≤ 1
room-le closed p = omega arith
room-le opened p = omega arith
room-le half_open true = omega arith
room-le half_open false = omega arith

asks_room :
    (now : ℕ) (b : Breaker)
    → Inv b
    → b.state ≢ closed
    → let b' = (allow_request now b).1 in
      (b'.state ≢ closed)
      × ((allow_request now b).0 ≡ true
          → suc (room b'.state b'.probe_in_flight) ≤ room b.state b.probe_in_flight)
      × (room b'.state b'.probe_in_flight ≤ room b.state b.probe_in_flight)
unfolding allow_request
asks_room now b v h = ground arith

looks_room :
    (now : ℕ) (b : Breaker)
    → Inv b
    → b.state ≢ closed
    → let b' = (get_state now b).1 in
      (b'.state ≢ closed) × (room b'.state b'.probe_in_flight ≤ room b.state b.probe_in_flight)
unfolding get_state
looks_room now b v h = ground arith

admitted-le-room :
    (es : List Event) (b : Breaker)
    → Inv b
    → b.state ≢ closed
    → OnlyAsks es
    → admitted es b ≤ room b.state b.probe_in_flight
unfolding admitted step
admitted-le-room [] b v h o = omega arith
admitted-le-room (asks now ∷ es) b v h o =
    let (h', less, le) = asks_room now b v h in
    let ih = admitted-le-room es (allow_request now b).1 (allow_request-Inv now b v) h' o in
    ground arith
admitted-le-room (looks now ∷ es) b v h o =
    let (h', le) = looks_room now b v h in
    let ih = admitted-le-room es (get_state now b).1 (get_state-Inv now b v) h' o in omega arith
admitted-le-room (succeeds now ∷ es) b v h o = absurd o
admitted-le-room (fails p r q ∷ es) b v h o = absurd o

-- A breaker that is not closed admits at most one request until an outcome is recorded, whatever
-- the clock reads in between.
pub one_probe :
    (es : List Event) (b : Breaker) → Inv b → b.state ≢ closed → OnlyAsks es → admitted es b ≤ 1
one_probe es b v h o = omega (arith, admitted-le-room es b v h o, room-le b.state b.probe_in_flight)

counted :
    (e : Event) (es : List Event) (b : Breaker)
    → NoSuccess (e ∷ es)
    → (step e b).consecutive_failures + failures es ≡ b.consecutive_failures + failures (e ∷ es)
unfolding step allow_request get_state record_failure
counted (asks now) es b h = ground arith
counted (looks now) es b h = ground arith
counted (succeeds now) es b h = absurd h
counted (fails p r o) es b h = ground arith

later : (e : Event) (es : List Event) → NoSuccess (e ∷ es) → NoSuccess es
later (asks _) es h = h
later (looks _) es h = h
later (succeeds _) es h = absurd h
later (fails _ _ _) es h = h

run-counts :
    (es : List Event) (b : Breaker)
    → NoSuccess es
    → (run es b).consecutive_failures ≡ b.consecutive_failures + failures es
unfolding run
run-counts [] b h = omega arith
run-counts (e ∷ es) b h = run-counts es (step e b) (later e es h) ∙ counted e es b h

-- Once five failures in a row are counted, the breaker is not closed again before a success: the
-- count includes what the breaker had counted before the history began.
pub five_failures :
    (es : List Event) (b : Breaker)
    → Inv b
    → NoSuccess es
    → 5 ≤ b.consecutive_failures + failures es
    → (run es b).state ≢ closed
five_failures es b v h enough e =
    absurd (omega (arith, (run-Inv es b v).below e, run-counts es b h))

asks_shut :
    (now : ℕ) (b : Breaker)
    → b.state ≡ opened
    → now < b.opened_at_ms + circuit_half_open_after_ms
    → ((allow_request now b).0 ≡ false) × ((allow_request now b).1 ≡ b)
unfolding allow_request
asks_shut now b o t = ground arith

looks_shut :
    (now : ℕ) (b : Breaker)
    → b.state ≡ opened
    → now < b.opened_at_ms + circuit_half_open_after_ms
    → (get_state now b).1 ≡ b
unfolding get_state
looks_shut now b o t = ground arith

fails_shut :
    (from p r q : ℕ) (b : Breaker)
    → b.state ≡ opened
    → from ≤ b.opened_at_ms
    → from ≤ q
    → ((record_failure p r q b).state ≡ opened) × (from ≤ (record_failure p r q b).opened_at_ms)
unfolding record_failure
fails_shut from p r q b o f g = ground arith

shut_for :
    (from : ℕ) (es : List Event) (b : Breaker)
    → b.state ≡ opened
    → from ≤ b.opened_at_ms
    → Between from (from + circuit_half_open_after_ms) es
    → NoSuccess es
    → (admitted es b ≡ 0) × ((run es b).state ≡ opened)
unfolding admitted run step
shut_for from [] b o f t n = (refl, o)
shut_for from (asks now ∷ es) b o f t n =
    let (no_one, same) = asks_shut now b o (omega arith) in
    let ih = shut_for from es b o f t.2 n in
    (rw (no_one, same) ih.0, subst (λ c. (run es c).state ≡ opened) (sym same) ih.1)
shut_for from (looks now ∷ es) b o f t n =
    subst (λ c. (admitted es c ≡ 0) × ((run es c).state ≡ opened))
      (sym (looks_shut now b o (omega arith))) (shut_for from es b o f t.2 n)
shut_for from (succeeds now ∷ es) b o f t n = absurd n
shut_for from (fails p r q ∷ es) b o f t n =
    let (o', f') = fails_shut from p r q b o f t.0 in
    shut_for from es (record_failure p r q b) o' f' t.2 n

-- For 30 seconds after it opened, a breaker on which no success is recorded admits no request and
-- stays open: not through asking, nor through failures of requests that were still under way.
pub stays_open :
    (es : List Event) (b : Breaker)
    → b.state ≡ opened
    → Between b.opened_at_ms (b.opened_at_ms + circuit_half_open_after_ms) es
    → NoSuccess es
    → (admitted es b ≡ 0) × ((run es b).state ≡ opened)
stays_open es b o t n = shut_for b.opened_at_ms es b o (omega arith) t n
