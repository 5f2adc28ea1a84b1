-- ===== src/Balancer/Attempts.antt =====
-- The attempts that ServeHTTP makes for one request: how many, at which backends, and with what body.
use pdag.Common.{
  ℕ, zero, suc, ◌+◌, ◌-◌, ◌%◌, ◌≤◌, ◌≡◌, refl, true, false, inl, inr, Text, List, [], Option, none,
  some, arith, length, All, leb, if◌then◌else◌, Bool-cases,
}
use pdag.Balancer.{
  BackendEntry, Balancer, u64, max_attempts, is_idempotent_method, error_handler, RoundTrip, Reply,
  Serving, is_healthy, attempt, next_reply, serve_from, serve_http,
}
use pdag.Balancer.Entries.{is_healthy-update_same, is_healthy-update_down}

module _ (transport : ℕ → Option Text → RoundTrip) (method : Text) (body : Option Text) where
  -- No more than `max_attempts` attempts are made.
  sent-le-two :
      (start n left attempts : ℕ) (s : Serving)
      → length s.sent ≡ attempts
      → attempts ≤ 2
      → length (serve_from transport method body start n left attempts s).1.sent ≤ 2
  unfolding serve_from attempt error_handler
  sent-le-two start n zero attempts s e h = omega arith
  sent-le-two start n (suc left) attempts s e h = grind (arith, sent-le-two start n left)

  sent-le-one :
      (start n left : ℕ) (s : Serving)
      → is_idempotent_method method ≡ false
      → s.sent ≡ []
      → length (serve_from transport method body start n left 0 s).1.sent ≤ 1
  unfolding serve_from attempt error_handler
  sent-le-one start n zero s p e = ground arith
  sent-le-one start n (suc left) s p e = ground (arith, sent-le-one start n left s p e)

  -- A request with an idempotent method is tried at most twice, and any other at most once.
  pub attempts_bound :
      (lb : Balancer) (inbound : Option Text)
      → length (serve_http transport method body lb inbound).1.sent
        ≤ (if is_idempotent_method method then max_attempts else 1)
  unfolding serve_http
  attempts_bound lb inbound = elim (Bool-cases (is_idempotent_method method)) [
    | inl e ↦ rw e (sent-le-two _ _ _ 0 _ refl (omega arith))
    | inr e ↦ rw e (sent-le-one _ _ _ _ e refl)
  ]

  -- The backend of an attempt was healthy in `es`, and the attempt sent the body `b`.
  abbrev Sound : List BackendEntry → Text → ℕ × Option Text → Type 0
  Sound es b (idx, sending) = (is_healthy es idx ≡ true) × (sending ≡ some b)

  -- What holds of the state between attempts: no backend has become healthy, and the attempts are sound.
  record Kept (es : List BackendEntry) (b : Text) (s : Serving) : Type 0 where
    no_recovery : (i : ℕ) → is_healthy s.entries i ≡ true → is_healthy es i ≡ true
    sound : All (Sound es b) s.sent

  attempt-Kept :
      (es : List BackendEntry) (b : Text) (idx : ℕ) (s : Serving)
      → body ≡ some b
      → is_healthy s.entries idx ≡ true
      → Kept es b s
      → Kept es b (attempt transport method body idx s).1
  unfolding attempt error_handler
  attempt-Kept es b idx s e p k = record {
    no_recovery = λ i q. ground (
      arith,
      k.no_recovery i,
      is_healthy-update_same s.entries idx i,
      is_healthy-update_down s.entries idx i,
    );
    sound = ground (arith, k.no_recovery idx);
  }

  next-Kept :
      (es : List BackendEntry) (b : Text) (r : Option Reply × Serving)
      (f : Serving → Reply × Serving)
      → Kept es b r.1
      → ((s : Serving) → Kept es b s → All (Sound es b) (f s).1.sent)
      → All (Sound es b) (next_reply transport method body r f).1.sent
  next-Kept es b (some reply, s) f k ih = k.sound
  next-Kept es b (none, s) f k ih = ih s k

  sent-Sound :
      (es : List BackendEntry) (b : Text) (start n left attempts : ℕ) (s : Serving)
      → body ≡ some b
      → Kept es b s
      → All (Sound es b) (serve_from transport method body start n left attempts s).1.sent
  unfolding serve_from
  sent-Sound es b start n zero attempts s e k = k.sound
  sent-Sound es b start n (suc left) attempts s e k =
      let idx = (start + (n - suc left)) % u64 % n in
      elim (Bool-cases (leb 2 attempts)) [
        | inl full ↦ rw full k.sound
        | inr room ↦ elim (Bool-cases (is_healthy s.entries idx)) [
          | inl up ↦
              rw (room, up)
                (next-Kept es b _ _ (attempt-Kept es b idx s e up k)
                  (λ s' k'. sent-Sound es b start n left (attempts + 1) s' e k'))
          | inr down ↦ rw (room, down) (sent-Sound es b start n left attempts s e k)
        ]
      ]

  -- Each attempt of a request with a buffered body goes to a backend that was healthy when the request
  -- came, and sends that body whole, the failover included.
  pub attempts_sound :
      (lb : Balancer) (inbound : Option Text) (b : Text)
      → body ≡ some b
      → All
          (λ (made : ℕ × Option Text). (is_healthy lb.backends made.0 ≡ true) × (made.1 ≡ some b))
          (serve_http transport method body lb inbound).1.sent
  unfolding serve_http
  attempts_sound lb inbound b e =
      sent-Sound lb.backends b _ _ _ _ _ e (record { no_recovery = λ i h. h; sound = tt })
