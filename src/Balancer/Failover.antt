-- ===== src/Balancer/Failover.antt =====
-- The loop of ServeHTTP against its specification: the healthy backends in the order of the rotation,
-- of which the first is tried, and the second if that is allowed.
use pdag.Common.{
  ℕ, zero, suc, ◌+◌, ◌-◌, ◌%◌, ◌≤◌, ◌<◌, ◌≡◌, ◌≢◌, refl, false, ◌||◌, inl, inr, Text, List, [], ◌∷◌,
  Option, none, some, arith, length, All, filter, leb, if◌then◌else◌, Bool-cases,
}
use pdag.Balancer.{
  Balancer, u64, is_idempotent_method, error_handler, RoundTrip, responded, errored, Reply,
  from_backend, no_healthy_backends, bad_gateway, nothing_written, Serving, is_healthy,
  body_to_send, attempt, serve_from, serve_http,
}
use pdag.Balancer.Rotation.{visit_inj}
use pdag.Balancer.Entries.{filter-update}

-- The indices that the loop has still to visit.
abbrev pub visits : ℕ → ℕ → ℕ → List ℕ
visits start n zero = []
visits start n (suc left) = (start + (n - suc left)) % u64 % n ∷ visits start n left

-- A visit that is behind is not made again.
visits-fresh :
    (start n i left : ℕ)
    → start + n ≤ u64
    → i + left < n
    → All (λ v. (start + i) % u64 % n ≢ v) (visits start n left)
visits-fresh start n i zero w h = tt
visits-fresh start n i (suc left) w h = (
  visit_inj n start i (n - suc left) w (omega arith) (omega arith) (omega arith),
  visits-fresh start n i left w (omega arith),
)

module _ (transport : ℕ → Option Text → RoundTrip) (method : Text) (body : Option Text) where
  -- What the client gets from backend `a`, if it is tried, with `retry` for what a failover gives.
  abbrev pub answer : ℕ → RoundTrip → Reply → Reply
  answer a (responded status) retry = from_backend a status
  answer a (errored is_canceled ctx_done) retry =
      if is_canceled || ctx_done
      then nothing_written
      else if is_idempotent_method method
      then retry
      else bad_gateway

  abbrev pub second : Option Text → List ℕ → Reply
  second stream [] = bad_gateway
  second stream (b ∷ rest) = answer b (transport b (body_to_send body stream)) bad_gateway

  abbrev drained_after : Option Text → Option Text
  drained_after none = none
  drained_after (some b) = some []

  abbrev pub failover : Option Text → List ℕ → Reply
  failover stream [] = no_healthy_backends
  failover stream (a ∷ rest) =
      answer a (transport a (body_to_send body stream))
        (second (drained_after (body_to_send body stream)) rest)

  exhausted :
      (start n left : ℕ) (s : Serving)
      → serve_from transport method body start n left 2 s ≡ (bad_gateway, s)
  unfolding serve_from
  exhausted start n zero s = refl
  exhausted start n (suc left) s = refl

  serve_second :
      (start n left : ℕ) (s : Serving)
      → (serve_from transport method body start n left 1 s).0
        ≡ second s.stream (filter (is_healthy s.entries) (visits start n left))
  unfolding serve_from attempt error_handler
  serve_second start n zero s = refl
  serve_second start n (suc left) s =
      grind (arith, serve_second start n left s, exhausted start n left)

  serve_first :
      (start n left : ℕ) (s : Serving)
      → start + n ≤ u64
      → left ≤ n
      → (serve_from transport method body start n left 0 s).0
        ≡ failover s.stream (filter (is_healthy s.entries) (visits start n left))
  unfolding serve_from attempt error_handler
  serve_first start n zero s w h = refl
  serve_first start n (suc left) s w h =
      let idx = (start + (n - suc left)) % u64 % n in
      let fresh = visits-fresh start n (n - suc left) left w (omega arith) in
      grind (
        arith,
        serve_first start n left s w,
        serve_second start n left,
        filter-update (λ e. e) s.entries idx (visits start n left) fresh,
        filter-update (λ e. record e { healthy = false }) s.entries idx (visits start n left) fresh,
      )

  -- The reply of ServeHTTP, if the counter does not wrap within one round, is that of the
  -- specification: the healthy backends are taken in the order of the rotation from the counter on;
  -- with none the reply is `no_healthy_backends`; the first one's response is the reply; after a
  -- client's cancellation nothing is written; after its transport error a request that is idempotent
  -- gets the second one's response, and any other, or with no second one that responds, a 502.
  pub serve_http-eq-failover :
      (lb : Balancer) (inbound : Option Text)
      → lb.counter + length lb.backends ≤ u64
      → (serve_http transport method body lb inbound).0
        ≡ failover inbound (
            filter
              (is_healthy lb.backends)
              (visits lb.counter (length lb.backends) (length lb.backends)))
  unfolding serve_http serve_from
  serve_http-eq-failover lb inbound w = elim (Bool-cases (leb u64 lb.counter)) [
    | inl wrapped ↦ let e : length lb.backends ≡ 0 = ground arith in rw (e, serve_from, visits)
    | inr below ↦
        let start : (((lb.counter + 1) % u64) + u64 - 1) % u64 ≡ lb.counter = ground arith in
        rw start
          (serve_first lb.counter (length lb.backends) (length lb.backends) _ w (omega arith))
  ]
