-- ===== src/Manager/Calls.antt =====
-- callPlugin: when it allows, and what it makes of the breaker.
use pdag.Common.{
  ◌-◌, ◌<◌, ◌≡◌, ◌↔◌, refl, true, false, Text, codes, List, [], ◌∷◌, ◌++◌, some, arith,
  if◌then◌else◌,
}
use pdag.Breaker.{half_open, open_state, CircuitBreaker, allow, record_success, record_failure}
use pdag.Manager.{
  PluginInstance, allows, denies, decision_allow, decision_other, Returned, response, nil_response,
  panic, failure, Attempt, denial, fail_call, finish_call, call_plugin,
}

finish_call_iff :
    (name : Text) (inst : PluginInstance) (attempt : Attempt) (returned : Returned) (reason : Text)
    → ((finish_call name inst attempt returned).answer ≡ some (allows, reason))
      ↔ (returned ≡ response decision_allow reason)
unfolding finish_call denial fail_call
finish_call_iff name inst attempt (failure err) reason = (λ h. ground arith, λ h. cc)
finish_call_iff name inst attempt nil_response reason = (λ h. cc, λ h. cc)
finish_call_iff name inst attempt (response decision_allow r) reason = (λ h. cc, λ h. cc)
finish_call_iff name inst attempt (response decision_other r) reason = (λ h. cc, λ h. cc)
finish_call_iff name inst attempt panic reason = (λ h. cc, λ h. cc)

-- A call allows, for a reason, exactly if the plugin has not failed for good, its breaker admits the call,
-- and the plugin returns a response that allows with this reason: every error, timeout, cancellation, nil
-- response, panic and open circuit denies.
pub call_plugin_iff :
    (name : Text) (inst : PluginInstance) (attempt : Attempt) (reason : Text)
    → ((call_plugin name inst attempt).answer ≡ some (allows, reason)) ↔ (
        (inst.failed ≡ false)
        × ((allow inst.breaker attempt.began).1 ≡ true)
        × (attempt.returned ≡ response decision_allow reason))
unfolding call_plugin denial
call_plugin_iff name inst attempt reason =
    let asked = record inst { breaker = (allow inst.breaker attempt.began).0 } in
    ground (arith, finish_call_iff name asked attempt attempt.returned reason)

-- What is to become of a breaker that has admitted a call.
abbrev pub breaker_after : Attempt → CircuitBreaker → Returned → CircuitBreaker
breaker_after attempt breaker (failure err) =
    if attempt.canceled then breaker else record_failure breaker attempt.ended
breaker_after attempt breaker nil_response = record_failure breaker attempt.ended
breaker_after attempt breaker (response decision reason) = record_success breaker
breaker_after attempt breaker panic = breaker

finish_call-breaker :
    (name : Text) (inst : PluginInstance) (attempt : Attempt) (returned : Returned)
    → (finish_call name inst attempt returned).instance.breaker
      ≡ breaker_after attempt inst.breaker returned
unfolding finish_call denial fail_call
finish_call-breaker name inst attempt (failure err) = ground arith
finish_call-breaker name inst attempt nil_response = refl
finish_call-breaker name inst attempt (response decision reason) = refl
finish_call-breaker name inst attempt panic = refl

-- A call of a plugin that has failed for good does not touch its breaker. Any other asks the breaker, and
-- if that admits it, records an error or a nil response as a failure at its end and a response, of either
-- decision, as a success; a cancellation and a panic it does not record.
pub call_plugin-breaker :
    (name : Text) (inst : PluginInstance) (attempt : Attempt)
    → (call_plugin name inst attempt).instance.breaker ≡ (
        if inst.failed
        then inst.breaker
        else if (allow inst.breaker attempt.began).1
        then breaker_after attempt (allow inst.breaker attempt.began).0 attempt.returned
        else (allow inst.breaker attempt.began).0)
unfolding call_plugin denial
call_plugin-breaker name inst attempt =
    let asked = record inst { breaker = (allow inst.breaker attempt.began).0 } in
    ground (arith, finish_call-breaker name asked attempt attempt.returned)

-- The instance after calls one after the other.
unfoldable pub call_all : Text → PluginInstance → List Attempt → PluginInstance
call_all name inst [] = inst
call_all name inst (attempt ∷ attempts) =
    call_all name (call_plugin name inst attempt).instance attempts

-- The permit of the half-open breaker has been taken, and no result recorded.
abbrev pub IsSpent : PluginInstance → Type 0
IsSpent inst =
    (inst.failed ≡ false)
    × (inst.breaker.state ≡ half_open)
    × (inst.breaker.half_open_allowed ≡ false)

spent_call :
    (name : Text) (inst : PluginInstance) (attempt : Attempt)
    → IsSpent inst
    → call_plugin name inst attempt ≡ denial inst (codes "circuit open: " ++ name)
unfolding call_plugin allow denial
spent_call name inst attempt (f, s, p) = rw (f, s, p, call_plugin) (ground arith)

spent_stays :
    (name : Text) (inst : PluginInstance) (attempts : List Attempt)
    → IsSpent inst
    → call_all name inst attempts ≡ inst
unfolding call_all denial
spent_stays name inst [] h = refl
spent_stays name inst (attempt ∷ attempts) h =
    rw (spent_call name inst attempt h) (spent_stays name inst attempts h)

canceled-IsSpent :
    (name : Text) (inst : PluginInstance) (probe : Attempt) (err : Text)
    → inst.failed ≡ false
    → inst.breaker.state ≡ open_state
    → inst.breaker.cooldown < probe.began - inst.breaker.last_failure
    → probe.returned ≡ failure err
    → probe.canceled ≡ true
    → IsSpent (call_plugin name inst probe).instance
unfolding call_plugin allow finish_call denial
canceled-IsSpent name inst probe err f s w r c = rw (f, s, r, c, call_plugin) (ground arith)

-- If the first call that an open breaker admits after its cooldown fails while the request's context is
-- done, then every later call of the same instance, at any time, is denied for an open circuit, as long as
-- the calls come one after the other.
pub canceled_probe_denies :
    (name : Text) (inst : PluginInstance) (probe : Attempt) (err : Text) (attempts : List Attempt)
    (later : Attempt)
    → inst.failed ≡ false
    → inst.breaker.state ≡ open_state
    → inst.breaker.cooldown < probe.began - inst.breaker.last_failure
    → probe.returned ≡ failure err
    → probe.canceled ≡ true
    → (call_plugin name (call_all name inst (probe ∷ attempts)) later).answer
      ≡ some (denies, codes "circuit open: " ++ name)
unfolding call_all denial
canceled_probe_denies name inst probe err attempts later f s w r c =
    let after = (call_plugin name inst probe).instance in
    let spent = canceled-IsSpent name inst probe err f s w r c in
    rw (spent_stays name after attempts spent, spent_call name after later spent) refl
