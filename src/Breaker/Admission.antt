-- ===== src/Breaker/Admission.antt =====
-- Which calls a breaker admits, and what moves it from state to state.
use pdag.Common.{
  ℕ, suc, ◌+◌, ◌-◌, ◌≤◌, ◌<◌, ◌≡◌, ◌≢◌, refl, true, false, List, [], ◌∷◌, arith, length, All,
  if◌then◌else◌,
}
use pdag.Breaker.{
  closed, half_open, open_state, CircuitBreaker, allow, record_success, record_failure,
}
use pdag.Breaker.Run.{Call, allows, succeeds, fails, call, run}

-- How many of the calls of Allow at these times are admitted, with no result recorded in between.
pub admitted : CircuitBreaker → List ℕ → ℕ
admitted cb [] = 0
admitted cb (now ∷ times) =
    let rest = admitted (allow cb now).0 times in if (allow cb now).1 then suc rest else rest

-- Calls of one kind at these times.
abbrev pub calls : Call → List ℕ → List (ℕ × Call)
calls c [] = []
calls c (now ∷ times) = (now, c) ∷ calls c times

-- A half-open breaker whose permit has been taken admits nothing and does not change, whenever it
-- is asked, until a result is recorded.
pub spent_permit_denies :
    (cb : CircuitBreaker) (times : List ℕ)
    → cb.state ≡ half_open
    → cb.half_open_allowed ≡ false
    → (admitted cb times ≡ 0) × (run cb (calls allows times) ≡ cb)
unfolding admitted allow run call
spent_permit_denies cb [] h p = (refl, refl)
spent_permit_denies cb (now ∷ times) h p = ground (arith, spent_permit_denies cb times h p)

-- Before a result is recorded, a breaker that is not closed admits at most one call, the probe.
pub one_probe : (cb : CircuitBreaker) (times : List ℕ) → cb.state ≢ closed → admitted cb times ≤ 1
unfolding admitted allow
one_probe cb [] h = omega arith
one_probe cb (now ∷ times) h =
    ground (arith, spent_permit_denies (allow cb now).0 times, one_probe (allow cb now).0 times)

-- An open breaker denies every call of Allow that comes within the cooldown after the last failure,
-- and does not change.
pub cooldown_denies :
    (cb : CircuitBreaker) (times : List ℕ)
    → cb.state ≡ open_state
    → All (λ now. now - cb.last_failure ≤ cb.cooldown) times
    → (admitted cb times ≡ 0) × (run cb (calls allows times) ≡ cb)
unfolding admitted allow run call
cooldown_denies cb [] h w = (refl, refl)
cooldown_denies cb (now ∷ times) h w = ground (arith, cooldown_denies cb times h)

-- Once the cooldown is over, an open breaker admits the first call and none after it, and is then
-- half-open with its permit taken.
pub cooldown_over_probes :
    (cb : CircuitBreaker) (now : ℕ) (times : List ℕ)
    → cb.state ≡ open_state
    → cb.cooldown < now - cb.last_failure
    → (admitted cb (now ∷ times) ≡ 1)
      × ((run cb (calls allows (now ∷ times))).state ≡ half_open)
      × ((run cb (calls allows (now ∷ times))).half_open_allowed ≡ false)
unfolding admitted allow run call
cooldown_over_probes cb now times h w = ground (arith, spent_permit_denies (allow cb now).0 times)

-- A closed breaker stays closed under failures as long as they are fewer than the threshold leaves,
-- and the next failure then opens it, at that failure's time.
pub opens_at_threshold :
    (cb : CircuitBreaker) (times : List ℕ) (now : ℕ)
    → cb.state ≡ closed
    → cb.consecutive_failures + length times + 1 ≡ cb.failure_threshold
    → ((run cb (calls fails times)).state ≡ closed)
      × ((call (run cb (calls fails times)) (now, fails)).state ≡ open_state)
      × ((call (run cb (calls fails times)) (now, fails)).last_failure ≡ now)
unfolding run call record_failure
opens_at_threshold cb [] now h e = ground arith
opens_at_threshold cb (t ∷ times) now h e =
    ground (arith, opens_at_threshold (record_failure cb t) times now)

-- A half-open breaker stays half-open under successes as long as they are fewer than the threshold
-- leaves, each of them giving a new permit, and the next success then closes it.
pub closes_at_threshold :
    (cb : CircuitBreaker) (times : List ℕ) (now : ℕ)
    → cb.state ≡ half_open
    → cb.half_open_allowed ≡ true
    → cb.consecutive_successes + length times + 1 ≡ cb.success_threshold
    → ((run cb (calls succeeds times)).state ≡ half_open)
      × ((run cb (calls succeeds times)).half_open_allowed ≡ true)
      × ((call (run cb (calls succeeds times)) (now, succeeds)).state ≡ closed)
unfolding run call record_success
closes_at_threshold cb [] now h p e = ground arith
closes_at_threshold cb (t ∷ times) now h p e =
    ground (arith, closes_at_threshold (record_success cb) times now)

stays_closed :
    (cb : CircuitBreaker) (times : List ℕ)
    → cb.state ≡ closed
    → cb.consecutive_failures + length times < cb.failure_threshold
    → (run cb (calls fails times)).state ≡ closed
unfolding run call record_failure
stays_closed cb [] h l = h
stays_closed cb (t ∷ times) h l = ground (arith, stays_closed (record_failure cb t) times)

-- A success starts the count of failures anew: a closed breaker with a success recorded is still
-- closed after any failures fewer than the threshold, however many came before the success.
pub success_resets :
    (cb : CircuitBreaker) (times : List ℕ)
    → cb.state ≡ closed
    → length times < cb.failure_threshold
    → (run (record_success cb) (calls fails times)).state ≡ closed
unfolding record_success
success_resets cb times h l = ground (arith, stays_closed (record_success cb) times)
