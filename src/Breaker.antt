-- ===== src/Breaker.antt =====
-- internal/authz/plugin/circuitbreaker.go: the circuit breaker of one plugin. Times are in
-- nanoseconds since some moment before the process began, and each call is given the time that the
-- clock shows. The metrics that the breaker writes are kept beside its state: the gauge, and each
-- transition that was counted, the latest first.
pub mod Run
pub mod Invariant
pub mod Admission
mod Tests
use pdag.Common.{ℕ, suc, ◌+◌, ◌-◌, Bool, true, false, Text, List, [], ◌∷◌, ltb, leb, if◌then◌else◌}

pub data CbState : Type 0 where
  closed half_open open_state : CbState

pub record CircuitBreaker : Type 0 where
  pub plugin : Text
  pub failure_threshold : ℕ
  pub success_threshold : ℕ
  pub cooldown : ℕ
  pub state : CbState
  pub consecutive_failures : ℕ
  pub consecutive_successes : ℕ
  pub last_failure : ℕ
  pub half_open_allowed : Bool
  pub gauge : CbState
  pub transitions : List (CbState × CbState)

unfoldable pub new_circuit_breaker : Text → ℕ → ℕ → ℕ → CircuitBreaker
new_circuit_breaker plugin failure_threshold success_threshold cooldown = record {
  plugin = plugin;
  failure_threshold = failure_threshold;
  success_threshold = success_threshold;
  cooldown = cooldown;
  state = closed;
  consecutive_failures = 0;
  consecutive_successes = 0;
  last_failure = 0;
  half_open_allowed = false;
  gauge = closed;
  transitions = [];
}

abbrev is_half_open : CbState → Bool
is_half_open half_open = true
is_half_open _ = false

unfoldable pub transition : CircuitBreaker → CbState → CircuitBreaker
transition cb to = record cb {
  state = to;
  consecutive_failures = 0;
  consecutive_successes = 0;
  half_open_allowed = is_half_open to;
  gauge = to;
  transitions = (cb.state, to) ∷ cb.transitions;
}

allow_at : CbState → CircuitBreaker → ℕ → CircuitBreaker × Bool
unfolding transition
allow_at closed cb now = (cb, true)
allow_at open_state cb now =
    if ltb cb.cooldown (now - cb.last_failure)
    then (record (transition cb half_open) { half_open_allowed = false }, true)
    else (cb, false)
allow_at half_open cb now =
    if cb.half_open_allowed then (record cb { half_open_allowed = false }, true) else (cb, false)

unfoldable pub allow : CircuitBreaker → ℕ → CircuitBreaker × Bool
unfolding allow_at
allow cb now = allow_at cb.state cb now

-- The part of RecordSuccess behind `if cb.state == StateHalfOpen`.
count_success : CircuitBreaker → CircuitBreaker
unfolding transition
count_success cb =
    let counted = record cb { consecutive_successes = cb.consecutive_successes + 1 } in
    if leb cb.success_threshold (cb.consecutive_successes + 1)
    then transition counted closed
    else record counted { half_open_allowed = true }

unfoldable pub record_success : CircuitBreaker → CircuitBreaker
unfolding count_success
record_success cb =
    let reset = record cb { consecutive_failures = 0 } in
    if is_half_open cb.state then count_success reset else reset

-- The switch at the end of RecordFailure.
trip : CbState → CircuitBreaker → CircuitBreaker
unfolding transition
trip closed cb =
    if leb cb.failure_threshold cb.consecutive_failures then transition cb open_state else cb
trip half_open cb = transition cb open_state
trip open_state cb = cb

unfoldable pub record_failure : CircuitBreaker → ℕ → CircuitBreaker
unfolding trip
record_failure cb now = trip cb.state (record cb {
  consecutive_successes = 0;
  consecutive_failures = cb.consecutive_failures + 1;
  last_failure = now;
})
