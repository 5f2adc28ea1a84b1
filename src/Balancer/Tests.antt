-- ===== src/Balancer/Tests.antt =====
-- The balancer at concrete inputs: three backends, of which the second is down.
use pdag.Common.{
  ℕ, zero, suc, ◌≡◌, refl, Bool, true, false, Text, codes, text_eq, [], ◌∷◌, Option, none, some,
  arith, filter,
}
use pdag.Balancer.{
  BackendEntry, Balancer, RoundTrip, responded, errored, from_backend, bad_gateway, is_healthy,
  attempt, serve_from, serve_http, update_entry,
}
use pdag.Balancer.Failover.{visits, failover, serve_http-eq-failover}

abbrev entry : Text → Bool → BackendEntry
entry url up = record { url = url; api_key = codes "k"; healthy = up }

abbrev three : Balancer
three = record {
  backends = entry (codes "a") true ∷ entry (codes "b") false ∷ entry (codes "c") true ∷ [];
  counter = 4;
}

-- The backend at index 2 fails, the others respond.
abbrev flaky : ℕ → Option Text → RoundTrip
flaky (suc (suc zero)) b = errored false false
flaky i b = responded 200

fails_over : (serve_http flaky (codes "GET") (some (codes "x")) three none).0 ≡ from_backend 0 200
unfolding serve_http serve_from attempt is_healthy text_eq update_entry
fails_over = refl

no_replay : (serve_http flaky (codes "POST") none three none).0 ≡ bad_gateway
unfolding serve_http serve_from attempt is_healthy text_eq update_entry
no_replay = refl

serve_http-eq-failover_example :
    (serve_http flaky (codes "GET") none three none).0
    ≡ failover flaky (codes "GET") none none (filter (is_healthy three.backends) (visits 4 3 3))
serve_http-eq-failover_example =
    serve_http-eq-failover flaky (codes "GET") none three none (omega arith)
