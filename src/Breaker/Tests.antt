-- ===== src/Breaker/Tests.antt =====
-- The breaker at concrete inputs: threshold 2 for failures and for successes, cooldown 10.
use pdag.Common.{◌≤◌, ◌≡◌, refl, true, false, [], ◌∷◌, arith, codes}
use pdag.Breaker.{closed, half_open, open_state, CircuitBreaker, new_circuit_breaker}
use pdag.Breaker.Run.{allows, succeeds, fails, call, run}
use pdag.Breaker.Invariant.{Inv, run-Inv}
use pdag.Breaker.Admission.{admitted, one_probe}

abbrev fresh : CircuitBreaker
fresh = record {
  plugin = codes "admin";
  failure_threshold = 2;
  success_threshold = 2;
  cooldown = 10;
  state = closed;
  consecutive_failures = 0;
  consecutive_successes = 0;
  last_failure = 0;
  half_open_allowed = false;
  gauge = closed;
  transitions = [];
}

abbrev opened : CircuitBreaker
opened = record fresh { state = open_state; last_failure = 5 }

abbrev probing : CircuitBreaker
probing = record fresh { state = half_open; half_open_allowed = true }

abbrev spent : CircuitBreaker
spent = record fresh { state = half_open }

whole_cycle :
    (run fresh (
      (1, fails)
      ∷ (5, fails)
      ∷ (15, allows)
      ∷ (16, allows)
      ∷ (17, succeeds)
      ∷ (18, succeeds)
      ∷ [])).transitions
    ≡ (half_open, closed) ∷ (open_state, half_open) ∷ (closed, open_state) ∷ []
unfolding run call
whole_cycle = refl

run-Inv_example : Inv (
    run
      (new_circuit_breaker (codes "admin") 2 2 10)
      ((1, fails) ∷ (5, fails) ∷ (16, allows) ∷ (17, fails) ∷ []))
run-Inv_example =
    run-Inv (codes "admin") 2 2 10 ((1, fails) ∷ (5, fails) ∷ (16, allows) ∷ (17, fails) ∷ [])
      (omega arith) (omega arith)

one_probe_example : admitted opened (16 ∷ 17 ∷ 900 ∷ []) ≤ 1
one_probe_example = one_probe opened (16 ∷ 17 ∷ 900 ∷ []) (λ e. cc)
