-- ===== src/Server.antt =====
-- cmd/pdag/serve.go: the readiness check of the metrics server, and the cleanup of expired keys. The
-- states of the plugins and of the backends are those of Manager and Balancer.
pub mod Cleanup
mod Tests
use pdag.Common.{ℕ, Bool, true, false, not, Text, codes, List, [], ◌∷◌, ltb, if◌then◌else◌}
use pdag.Store.{delete_expired}
use pdag.Authn.{Found, failed, absent, found}
use pdag.Manager.{Plugins}
use pdag.Manager as Manager
use pdag.Balancer.{Balancer}
use pdag.Balancer as Balancer
use pdag.Admin.{State, Conditions}

pub data Readiness : Type 0 where
  ok : Readiness
  unavailable : Text → Readiness

abbrev pub lookup_failed : Found → Bool
lookup_failed failed = true
lookup_failed absent = false
lookup_failed (found rec) = false

-- readinessCheck, with the processes that have exited.
unfoldable pub readiness_check : (Text → Found) → (ℕ → Bool) → Plugins → Balancer → Readiness
readiness_check get_by_id exited plugins lb =
    if lookup_failed (get_by_id (codes "__healthcheck__"))
    then unavailable (codes "store unhealthy")
    else if not (Manager.healthy exited plugins)
    then unavailable (codes "no healthy plugins")
    else if not (Balancer.healthy lb)
    then unavailable (codes "no healthy backends")
    else ok

-- A tick of runKeyCleanup.
unfoldable pub clean_up : Conditions → State → State
clean_up c s =
    if c.writes_fail
    then s
    else (let (kept, n) = delete_expired s.keys c.now in
        let cleaned = record s { keys = kept } in
        if ltb 0 n
        then (if c.audit_fails
            then cleaned
            else record cleaned { trail = ([], codes "auto_cleanup") ∷ s.trail })
        else cleaned)

-- runKeyCleanup, tick by tick.
unfoldable pub run_key_cleanup : List Conditions → State → State
unfolding clean_up
run_key_cleanup [] s = s
run_key_cleanup (c ∷ cs) s = run_key_cleanup cs (clean_up c s)
