-- ===== src/Breaker/Run.antt =====
-- Histories of a breaker: the calls that requests make on it, in the order in which its mutex lets
-- them in.
use pdag.Common.{ℕ, List, [], ◌∷◌}
use pdag.Breaker.{CircuitBreaker, allow, record_success, record_failure}

pub data Call : Type 0 where
  allows succeeds fails : Call

unfoldable pub call : CircuitBreaker → ℕ × Call → CircuitBreaker
unfolding allow record_success record_failure
call cb (now, allows) = (allow cb now).0
call cb (now, succeeds) = record_success cb
call cb (now, fails) = record_failure cb now

unfoldable pub run : CircuitBreaker → List (ℕ × Call) → CircuitBreaker
run cb [] = cb
run cb (c ∷ cs) = run (call cb c) cs
