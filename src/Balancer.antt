-- ===== src/Balancer.antt =====
-- internal/proxy/balancer/balancer.go: round-robin over the backends with one failover. What a
-- backend's ReverseProxy brings back for one attempt is a parameter, `transport`: it is given the
-- backend's index and the body that is sent. A request is served with no health check in between.
pub mod Rotation
pub mod Failover
pub mod Entries
pub mod Attempts
pub mod Health
pub mod Availability
mod Tests
use pdag.Common.{
  ℕ, zero, suc, ◌+◌, ◌-◌, ◌%◌, ◌^◌, Bool, true, false, ◌||◌, Text, codes, text_eq, List, [], ◌∷◌,
  Option, none, some, length, get_elem?, any, leb, if◌then◌else◌,
}

pub record BackendEntry : Type 0 where
  pub url : Text
  pub api_key : Text
  pub healthy : Bool

-- The counter is a uint64.
pub record Balancer : Type 0 where
  pub backends : List BackendEntry
  pub counter : ℕ

abbrev pub u64 : ℕ
u64 = 2 ^ 64

abbrev pub max_attempts : ℕ
max_attempts = 2

unfoldable pub is_idempotent_method : Text → Bool
is_idempotent_method m =
    text_eq m (codes "GET")
    || text_eq m (codes "HEAD")
    || text_eq m (codes "PUT")
    || text_eq m (codes "DELETE")

pub record AttemptState : Type 0 where
  pub failed : Bool
  pub canceled : Bool

-- What comes of one attempt: a response with its status, or a transport error before any response,
-- with whether the error is context.Canceled and whether the request's context has ended.
pub data RoundTrip : Type 0 where
  responded : ℕ → RoundTrip
  errored : Bool → Bool → RoundTrip

-- The ErrorHandler of New, where the context holds an attempt state (ServeHTTP always puts one
-- there): what it writes to the state and to its backend's entry.
unfoldable pub error_handler : Bool → Bool → AttemptState × (BackendEntry → BackendEntry)
error_handler is_canceled ctx_done =
    if is_canceled || ctx_done
    then (record { failed = true; canceled = true }, λ entry. entry)
    else (record { failed = true; canceled = false }, λ entry. record entry { healthy = false })

pub data Reply : Type 0 where
  from_backend : ℕ → ℕ → Reply
  no_healthy_backends bad_gateway nothing_written : Reply

-- What changes while a request is served: the entries, the attempts made (the latest first, each
-- with the index of its backend and the body that was sent), and what is left of the inbound body.
pub record Serving : Type 0 where
  pub entries : List BackendEntry
  pub sent : List (ℕ × Option Text)
  pub stream : Option Text

unfoldable pub is_healthy : List BackendEntry → ℕ → Bool
is_healthy [] i = false
is_healthy (e ∷ es) zero = e.healthy
is_healthy (e ∷ es) (suc i) = is_healthy es i

-- The error handler's write to the entry at an index.
unfoldable pub update_entry :
    (BackendEntry → BackendEntry) → List BackendEntry → ℕ → List BackendEntry
update_entry f [] i = []
update_entry f (e ∷ es) zero = f e ∷ es
update_entry f (e ∷ es) (suc i) = e ∷ update_entry f es i

-- `if body != nil { r.Body = ... }`
abbrev pub body_to_send : Option Text → Option Text → Option Text
body_to_send none stream = stream
body_to_send (some b) stream = some b

-- The attempt reads the stream to its end.
abbrev drained : Option Text → Option Text
drained none = none
drained (some b) = some []

abbrev pub give_up : ℕ → Reply
give_up zero = no_healthy_backends
give_up (suc attempts) = bad_gateway

module _ (transport : ℕ → Option Text → RoundTrip) (method : Text) (body : Option Text) where
  -- After an attempt at `idx` that came to `trip`: the reply and the state if the loop ends here, and
  -- otherwise (a failover) the state alone.
  unfoldable pub settle : ℕ → RoundTrip → Serving → Option Reply × Serving
  unfolding error_handler is_idempotent_method
  settle idx (responded status) s = (some (from_backend idx status), s)
  settle idx (errored is_canceled ctx_done) s =
      let (st, write) = error_handler is_canceled ctx_done in
      let after = record s { entries = update_entry write s.entries idx } in
      if st.canceled
      then (some nothing_written, after)
      else if is_idempotent_method method
      then (none, after)
      else (some bad_gateway, after)

  -- One attempt: the body is set anew if it was buffered, and the backend's proxy is called.
  unfoldable pub attempt : ℕ → Serving → Option Reply × Serving
  unfolding settle
  attempt idx s =
      let sending = body_to_send body s.stream in
      settle idx (transport idx sending)
        (record s { sent = (idx, sending) ∷ s.sent; stream = drained sending })

  abbrev next_reply : Option Reply × Serving → (Serving → Reply × Serving) → Reply × Serving
  next_reply (some reply, s) f = (reply, s)
  next_reply (none, s) f = f s

  -- The loop of ServeHTTP, with `left` indices still to visit of the `n` from `start` on.
  unfoldable pub serve_from : ℕ → ℕ → ℕ → ℕ → Serving → Reply × Serving
  serve_from start n zero attempts s = (give_up attempts, s)
  serve_from start n (suc left) attempts s =
      let idx = (start + (n - suc left)) % u64 % n in
      let skip = serve_from start n left attempts s in
      let tried = next_reply (attempt idx s) (serve_from start n left (attempts + 1)) in
      if leb max_attempts attempts
      then (give_up attempts, s)
      else if is_healthy s.entries idx
      then tried
      else skip

  -- `start` is `counter.Add(1) - 1`.
  unfoldable pub serve_http : Balancer → Option Text → Reply × Serving × Balancer
  serve_http lb inbound =
      let n = length lb.backends in
      let bumped = (lb.counter + 1) % u64 in
      let (reply, s) =
        serve_from ((bumped + u64 - 1) % u64) n n 0
          (record { entries = lb.backends; sent = []; stream = inbound }) in
      (reply, s, record { backends = s.entries; counter = bumped })

-- Balancer.Healthy
unfoldable pub healthy : Balancer → Bool
healthy lb = any (λ e. e.healthy) lb.backends
