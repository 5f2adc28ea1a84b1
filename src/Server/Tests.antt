-- ===== src/Server/Tests.antt =====
-- Cleanups of a store with one key, and a probe.
use pdag.Common.{◌≡◌, ◌↔◌, refl, true, false, codes, List, [], ◌∷◌, some, All, lookup}
use pdag.Store.{get_by_id}
use pdag.Authn.{failed}
use pdag.Admin.{Conditions}
use pdag.Admin.Tests.{calm, id, with_alice, alice}
use pdag.Server.{readiness_check, unavailable, run_key_cleanup}
use pdag.Server.Cleanup.{Spares, run_key_cleanup_iff}

unready :
    readiness_check (λ id. failed) (λ n. false) [] (record { backends = []; counter = 0 })
    ≡ unavailable (codes "store unhealthy")
unfolding readiness_check
unready = refl

abbrev ticks : List Conditions
ticks = calm ∷ record calm { writes_fail = true } ∷ []

run_key_cleanup_iff_example :
    (get_by_id (run_key_cleanup ticks with_alice).keys id ≡ some alice)
    ↔ ((get_by_id with_alice.keys id ≡ some alice) × All (Spares alice) ticks)
unfolding lookup
run_key_cleanup_iff_example = run_key_cleanup_iff ticks with_alice id alice (refl, tt)
