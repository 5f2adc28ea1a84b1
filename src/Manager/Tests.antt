-- ===== src/Manager/Tests.antt =====
-- Plugins at concrete calls.
use pdag.Common.{◌≡◌, ◌↔◌, refl, true, false, arith, codes, [], ◌∷◌, ◌++◌, some, lookup, text_eq}
use pdag.Breaker.{new_circuit_breaker, open_state, allow}
use pdag.Manager.{
  PluginConfig, PluginInstance, allows, denies, decision_allow, response, failure, Attempt,
  call_plugin, authorize,
}
use pdag.Manager.Calls.{call_plugin_iff, call_all, canceled_probe_denies}
use pdag.Manager.Decisions.{SomeAllowed, authorize_iff}
use pdag.Manager.Restarts.{
  Manager, start_fails, installs, exhausts, closes, authorizes, restart_plugin, step, run_events,
  close_is_final, restart_exhausts,
}

abbrev config : PluginConfig
config = record { failure_threshold = 2; success_threshold = 1; cooldown = 10 }

abbrev ready : PluginInstance
ready = record {
  client = 1;
  breaker = new_circuit_breaker (codes "p") 2 1 10;
  cfg = config;
  restarting = false;
  failed = false;
}

abbrev opened : PluginInstance
opened = record ready { breaker = record ready.breaker { state = open_state; last_failure = 5 } }

abbrev allowing : Attempt
allowing = record {
  began = 20;
  ended = 21;
  returned = response decision_allow (codes "ok");
  canceled = false;
  timed_out = false;
  exited = false;
}

abbrev canceled_call : Attempt
canceled_call = record allowing { returned = failure (codes "gone"); canceled = true }

abbrev manager : Manager
manager = record { plugins = (codes "p", ready) ∷ []; closed = false; killed = [] }

call_plugin_iff_example :
    (call_plugin (codes "p") ready allowing).answer ≡ some (allows, codes "ok")
unfolding new_circuit_breaker allow
call_plugin_iff_example =
    (call_plugin_iff (codes "p") ready allowing (codes "ok")).1 (refl, refl, refl)

canceled_probe_denies_example :
    (call_plugin
      (codes "p")
      (call_all (codes "p") opened (canceled_call ∷ allowing ∷ []))
      (record allowing { began = 9000 })).answer
    ≡ some (denies, codes "circuit open: " ++ codes "p")
unfolding new_circuit_breaker
canceled_probe_denies_example =
    canceled_probe_denies (codes "p") opened canceled_call (codes "gone") (allowing ∷ [])
      (record allowing { began = 9000 }) refl refl (omega arith) refl refl

authorize_iff_example :
    ((authorize manager.plugins ((codes "q", allowing) ∷ (codes "p", allowing) ∷ [])).1.decision
      ≡ allows)
    ↔ SomeAllowed manager.plugins ((codes "q", allowing) ∷ (codes "p", allowing) ∷ [])
unfolding lookup text_eq
authorize_iff_example =
    authorize_iff manager.plugins ((codes "q", allowing) ∷ (codes "p", allowing) ∷ [])
      (refl, (refl, tt))

close_is_final_example :
    ((run_events
        (step manager closes)
        (installs (codes "p") ready ∷ authorizes ((codes "p", allowing) ∷ []) ∷ [])).plugins
      ≡ [])
    × ((run_events
          (step manager closes)
          (installs (codes "p") ready ∷ authorizes ((codes "p", allowing) ∷ []) ∷ [])).closed
        ≡ true)
close_is_final_example =
    close_is_final manager
      (installs (codes "p") ready ∷ authorizes ((codes "p", allowing) ∷ []) ∷ [])

restart_exhausts_example :
    restart_plugin (codes "p") config (λ attempt. start_fails) ≡ some (exhausts (codes "p"))
restart_exhausts_example =
    (restart_exhausts (codes "p") config (λ attempt. start_fails)).1 (λ attempt l. refl)
