-- ===== src/Balancer/Availability.antt =====
-- Balancer.Healthy against ServeHTTP: a request is told that no backend is healthy exactly when that
-- is what Healthy reports.
use pdag.Common.{
  ℕ, zero, suc, ◌+◌, ◌-◌, ◌%◌, ◌≤◌, ◌<◌, ◌≡◌, ◌≢◌, ◌↔◌, ◌==◌, refl, ap, sym, ◌∙◌, true, false, inl,
  inr, Text, List, [], ◌∷◌, Option, arith, length, filter, any, Bool-cases,
}
use pdag.Balancer.{
  BackendEntry, Balancer, u64, RoundTrip, responded, errored, Reply, no_healthy_backends,
  bad_gateway, is_healthy, serve_http, healthy,
}
use pdag.Balancer.Rotation.{visit_onto}
use pdag.Balancer.Failover.{visits, answer, second, failover, serve_http-eq-failover}

all_down :
    (es : List BackendEntry) (i : ℕ) → any (λ e. e.healthy) es ≡ false → is_healthy es i ≡ false
unfolding is_healthy
all_down [] i h = refl
all_down (e ∷ es) zero h = ground arith
all_down (e ∷ es) (suc i) h = ground (arith, all_down es i)

some_up :
    (es : List BackendEntry)
    → any (λ e. e.healthy) es ≡ true
    → (i : ℕ) × (i < length es) × (is_healthy es i ≡ true)
unfolding is_healthy
some_up [] h = cc
some_up (e ∷ es) h = elim (Bool-cases e.healthy) [
  | inl up ↦ (0, omega arith, up)
  | inr down ↦ let r = some_up es (ground arith) in (suc r.0, omega arith, r.2)
]

filter_none :
    (es : List BackendEntry) (vs : List ℕ)
    → any (λ e. e.healthy) es ≡ false
    → filter (is_healthy es) vs ≡ []
filter_none es [] h = refl
filter_none es (v ∷ vs) h = ground (arith, all_down es v h, filter_none es vs h)

-- The visit `i` of a round is among those still to make while `left` reaches back to it.
filter_some :
    (es : List BackendEntry) (start n i left : ℕ)
    → i < n
    → n ≤ i + left
    → left ≤ n
    → is_healthy es ((start + i) % u64 % n) ≡ true
    → filter (is_healthy es) (visits start n left) ≢ []
filter_some es start n i zero h l m up e = omega arith
filter_some es start n i (suc left) h l m up e = elim (Bool-cases (i == n - suc left)) [
  | inl here ↦
      let same : n - suc left ≡ i = ground arith in
      ground (arith, ap (λ (k : ℕ). is_healthy es ((start + k) % u64 % n)) same)
  | inr further ↦ ground (arith, filter_some es start n i left h)
]

module _ (transport : ℕ → Option Text → RoundTrip) (method : Text) (body : Option Text) where
  answer-some :
      (a : ℕ) (trip : RoundTrip) (retry : Reply)
      → retry ≢ no_healthy_backends
      → answer transport method body a trip retry ≢ no_healthy_backends
  answer-some a (responded status) retry d = λ e. cc
  answer-some a (errored c x) retry d = λ e. ground arith

  second-some :
      (stream : Option Text) (vs : List ℕ)
      → second transport method body stream vs ≢ no_healthy_backends
  second-some stream [] = λ e. cc
  second-some stream (b ∷ vs) = answer-some b _ bad_gateway (λ e. cc)

  failover-some :
      (stream : Option Text) (vs : List ℕ)
      → vs ≢ []
      → failover transport method body stream vs ≢ no_healthy_backends
  failover-some stream [] d = absurd (d refl)
  failover-some stream (a ∷ vs) d = answer-some a _ _ (second-some _ vs)

  -- As long as the counter does not wrap within one round, a request gets the reply
  -- `no_healthy_backends` if and only if Healthy is false at that moment.
  pub no_healthy_backends_iff :
      (lb : Balancer) (inbound : Option Text)
      → lb.counter + length lb.backends ≤ u64
      → ((serve_http transport method body lb inbound).0 ≡ no_healthy_backends)
        ↔ (healthy lb ≡ false)
  unfolding healthy
  no_healthy_backends_iff lb inbound w =
      let n = length lb.backends in
      let spec = serve_http-eq-failover transport method body lb inbound w in
      (
        λ told. elim (Bool-cases (any (λ e. e.healthy) lb.backends)) [
          | inl up ↦
              let k = some_up lb.backends up in
              let i = visit_onto n lb.counter k.0 w k.1 in
              absurd (
                failover-some inbound _
                  (filter_some lb.backends lb.counter n i.0 n i.1 (omega arith) (omega arith)
                    (rw i.2 k.2))
                  (sym spec ∙ told))
          | inr down ↦ down
        ],
        λ down. spec ∙ ap (failover transport method body inbound) (filter_none lb.backends _ down),
      )
