-- ===== src/Manager.antt =====
-- internal/authz/plugin/manager.go: the plugins, their calls and their restarts. A plugin's process and
-- its gRPC client are outside: what a call of a plugin meets is an Attempt, and a client is a number.
-- The decisions "allow" and "deny" are constructors. An instance is shared by pointers in the source; the
-- map holds it here, and a call puts back what it changed.
pub mod Calls
pub mod Decisions
pub mod Restarts
mod Tests
use pdag.Common.{
  ℕ, Bool, true, false, not, ◌&&◌, ◌||◌, Text, codes, List, [], ◌∷◌, ◌++◌, Option, none, some,
  is_empty, if◌then◌else◌, any, lookup, put,
}
use pdag.Breaker.{
  CbState, closed, half_open, open_state, CircuitBreaker, new_circuit_breaker, allow,
  record_success, record_failure,
}

-- The part of PluginConfig that a restart reads.
pub record PluginConfig : Type 0 where
  pub failure_threshold : ℕ
  pub success_threshold : ℕ
  pub cooldown : ℕ

pub record PluginInstance : Type 0 where
  pub client : ℕ
  pub breaker : CircuitBreaker
  pub cfg : PluginConfig
  pub restarting : Bool
  pub failed : Bool

abbrev pub Plugins : Type 0
Plugins = List (Text × PluginInstance)

pub data Decision : Type 0 where
  allows denies : Decision

-- The decision of a response: ALLOW, or any other.
pub data PbDecision : Type 0 where
  decision_allow decision_other : PbDecision

-- What the plugin's Authorize returns.
pub data Returned : Type 0 where
  response : PbDecision → Text → Returned
  nil_response panic : Returned
  failure : Text → Returned

-- What one call meets: the clock before the call and behind it, what the call returns, whether the
-- context of the request is done then, whether the call's own deadline has passed, and whether the
-- process has exited.
pub record Attempt : Type 0 where
  pub began : ℕ
  pub ended : ℕ
  pub returned : Returned
  pub canceled : Bool
  pub timed_out : Bool
  pub exited : Bool

-- The instance after a call, decision and reason (`none` if the call panics), and whether a restart is
-- scheduled.
pub record CallOutcome : Type 0 where
  pub instance : PluginInstance
  pub answer : Option (Decision × Text)
  pub restart : Bool

unfoldable pub denial : PluginInstance → Text → CallOutcome
denial inst reason = record { instance = inst; answer = some (denies, reason); restart = false }

-- The branch behind `err != nil`, for an error that counts.
unfoldable pub fail_call : Text → PluginInstance → Attempt → Text → CallOutcome
unfolding denial
fail_call name inst attempt err =
    if attempt.timed_out
    then denial inst (codes "timeout: " ++ name)
    else (let reason = codes "error: " ++ (name ++ (codes ": " ++ err)) in
        if attempt.exited && (not inst.failed && not inst.restarting)
        then record {
          instance = record inst { restarting = true };
          answer = some (denies, reason);
          restart = true;
        }
        else denial inst reason)

abbrev pub after_failure : PluginInstance → ℕ → PluginInstance
after_failure inst now = record inst { breaker = record_failure inst.breaker now }

abbrev pub after_success : PluginInstance → PluginInstance
after_success inst = record inst { breaker = record_success inst.breaker }

abbrev pub decision_of : PbDecision → Decision
decision_of decision_allow = allows
decision_of decision_other = denies

-- callPlugin from the return of the plugin's Authorize on.
unfoldable pub finish_call : Text → PluginInstance → Attempt → Returned → CallOutcome
unfolding denial fail_call
finish_call name inst attempt (failure err) =
    if attempt.canceled
    then denial inst (codes "canceled: " ++ name)
    else fail_call name (after_failure inst attempt.ended) attempt err
finish_call name inst attempt nil_response =
    denial (after_failure inst attempt.ended) (codes "nil response: " ++ name)
finish_call name inst attempt (response decision reason) = record {
  instance = after_success inst;
  answer = some (decision_of decision, reason);
  restart = false;
}
finish_call name inst attempt panic = record { instance = inst; answer = none; restart = false }

unfoldable pub call_plugin : Text → PluginInstance → Attempt → CallOutcome
unfolding denial finish_call
call_plugin name inst attempt =
    if inst.failed
    then denial inst (codes "plugin permanently failed: " ++ name)
    else (let (breaker, admitted) = allow inst.breaker attempt.began in
        let asked = record inst { breaker = breaker } in
        if admitted
        then finish_call name asked attempt attempt.returned
        else denial asked (codes "circuit open: " ++ name))

pub record Result : Type 0 where
  pub decision : Decision
  pub plugin : Text
  pub reason : Text

-- A panic is recovered, and denies.
unfoldable pub result_of : Text → Option (Decision × Text) → Result
result_of role none = record { decision = denies; plugin = role; reason = codes "panic: " ++ role }
result_of role (some (decision, reason)) = record {
  decision = decision;
  plugin = role;
  reason = reason;
}

-- One turn of the loop over the roles, with the goroutine that it starts.
unfoldable pub ask : Plugins → Text → Attempt → Plugins × Result
unfolding result_of
ask plugins role attempt = elim (lookup role plugins) [
  | none ↦ (plugins, result_of role (some (denies, codes "plugin not configured")))
  | some inst ↦
      let outcome = call_plugin role inst attempt in
      (put role outcome.instance plugins, result_of role outcome.answer)
]

-- The calls, in the order in which their results come through the channel.
unfoldable pub ask_all : Plugins → List (Text × Attempt) → Plugins × List Result
ask_all plugins [] = (plugins, [])
ask_all plugins ((role, attempt) ∷ calls) =
    let (changed, result) = ask plugins role attempt in
    let (final, results) = ask_all changed calls in (final, result ∷ results)

abbrev pub is_allow : Decision → Bool
is_allow allows = true
is_allow denies = false

-- The loop that collects the results, with lastDeny.
unfoldable pub collect : Result → List Result → Result
collect last_deny [] = last_deny
collect last_deny (r ∷ rs) = let rest = collect r rs in if is_allow r.decision then r else rest

abbrev pub no_roles : Result
no_roles = record { decision = denies; plugin = []; reason = codes "no roles assigned" }

-- lastDeny as it is before the first result.
abbrev pub no_result : Result
no_result = record { decision = denies; plugin = []; reason = [] }

-- Authorize, for the roles of the calls. A call goes on when a result before it allows, but its own
-- result is not read.
unfoldable pub authorize : Plugins → List (Text × Attempt) → Plugins × Result
authorize plugins calls =
    if is_empty calls
    then (plugins, no_roles)
    else (let (final, results) = ask_all plugins calls in (final, collect no_result results))

abbrev pub is_open : CbState → Bool
is_open open_state = true
is_open _ = false

-- Healthy, with the processes that have exited.
unfoldable pub healthy : (ℕ → Bool) → Plugins → Bool
healthy exited [] = false
healthy exited ((name, inst) ∷ plugins) =
    (not inst.failed && (not (exited inst.client) && not (is_open inst.breaker.state)))
    || healthy exited plugins
