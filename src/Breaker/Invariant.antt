-- ===== src/Breaker/Invariant.antt =====
-- What holds of a breaker after any history.
use pdag.Common.{ℕ, ◌<◌, ◌≡◌, true, Text, List, [], ◌∷◌, arith}
use pdag.Breaker.{
  CbState, closed, half_open, open_state, CircuitBreaker, new_circuit_breaker, allow,
  record_success, record_failure,
}
use pdag.Breaker.Run.{Call, allows, succeeds, fails, call, run}

-- The edges of the state diagram.
pub data Edge : CbState → CbState → Type 0 where
  trips : Edge closed open_state
  probes : Edge open_state half_open
  reopens : Edge half_open open_state
  recovers : Edge half_open closed

-- The counted transitions, latest first, are a path along edges from `closed` to the state.
abbrev pub Trace : CbState → List (CbState × CbState) → Type 0
Trace s [] = s ≡ closed
Trace s ((from, to) ∷ earlier) = (s ≡ to) × Edge from to × Trace from earlier

pub record Inv (cb : CircuitBreaker) : Type 0 where
  pub thresholds : (0 < cb.failure_threshold) × (0 < cb.success_threshold)
  pub closed_below : cb.state ≡ closed → cb.consecutive_failures < cb.failure_threshold
  pub half_open_below : cb.state ≡ half_open → cb.consecutive_successes < cb.success_threshold
  pub successes_half_open : 0 < cb.consecutive_successes → cb.state ≡ half_open
  pub permit_half_open : cb.half_open_allowed ≡ true → cb.state ≡ half_open
  pub gauge_exact : cb.gauge ≡ cb.state
  pub traced : Trace cb.state cb.transitions

allow-Inv : (cb : CircuitBreaker) (now : ℕ) → Inv cb → Inv (allow cb now).0
unfolding allow
allow-Inv cb now v = ground (arith, probes)

record_success-Inv : (cb : CircuitBreaker) → Inv cb → Inv (record_success cb)
unfolding record_success
record_success-Inv cb v = ground (arith, recovers)

record_failure-Inv : (cb : CircuitBreaker) (now : ℕ) → Inv cb → Inv (record_failure cb now)
unfolding record_failure
record_failure-Inv cb now v = ground (arith, trips, reopens)

call-Inv : (cb : CircuitBreaker) (c : ℕ × Call) → Inv cb → Inv (call cb c)
unfolding call
call-Inv cb (now, allows) v = allow-Inv cb now v
call-Inv cb (now, succeeds) v = record_success-Inv cb v
call-Inv cb (now, fails) v = record_failure-Inv cb now v

run-Inv_from : (cb : CircuitBreaker) (cs : List (ℕ × Call)) → Inv cb → Inv (run cb cs)
unfolding run
run-Inv_from cb [] v = v
run-Inv_from cb (c ∷ cs) v = run-Inv_from (call cb c) cs (call-Inv cb c v)

new-Inv :
    (plugin : Text) (failures successes cooldown : ℕ)
    → 0 < failures
    → 0 < successes
    → Inv (new_circuit_breaker plugin failures successes cooldown)
unfolding new_circuit_breaker
new-Inv plugin failures successes cooldown f s = ground arith

-- A new breaker with positive thresholds keeps the invariant through every history of calls: while
-- it is closed the failures in a row are below the failure threshold, while it is half-open the
-- successes in a row are below the success threshold, successes are counted and a permit is out only
-- while it is half-open, the gauge shows the state, and the counted transitions form a path of the
-- state diagram from closed to the state.
pub run-Inv :
    (plugin : Text) (failures successes cooldown : ℕ) (cs : List (ℕ × Call))
    → 0 < failures
    → 0 < successes
    → Inv (run (new_circuit_breaker plugin failures successes cooldown) cs)
run-Inv plugin failures successes cooldown cs f s =
    run-Inv_from _ cs (new-Inv plugin failures successes cooldown f s)
