-- ===== src/RateLimit/Eviction.antt =====
-- What cleanup does to the limit.
use native.Mathlib.Nat.{mul_comm}
use pdag.Common.{
  ℕ, ◌+◌, ◌-◌, ◌*◌, ◌≤◌, ◌<◌, ◌≡◌, refl, sym, ◌∙◌, true, false, Text, text_eq_iff, List, [], ◌∷◌,
  Option, none, some, arith, ltb, lt→ltb, le→ltb-false, if◌then◌else◌, pos, lookup, Bool-cases, inl,
  inr, Distinct,
}
use pdag.RateLimit.{
  Bucket, Limiter, stale_threshold, take_token, fresh_bucket, bucket_of, allow, keep_fresh, cleanup,
}
use pdag.RateLimit.Refill.{topped_up, topped_up_le, take_token_lem}
use pdag.RateLimit.Bound.{allow_same, bucket_of-known, take_token-buckets}

-- The bucket that is left of one after a cleanup.
abbrev survivor : ℕ → Option Bucket → Option Bucket
survivor now none = none
survivor now (some b) = if ltb stale_threshold (now - b.last_check) then none else some b

lookup-keep_fresh :
    (now : ℕ) (p : Text) (m : List (Text × Bucket))
    → Distinct m
    → lookup p (keep_fresh now m) ≡ survivor now (lookup p m)
unfolding lookup keep_fresh
lookup-keep_fresh now p [] d = refl
lookup-keep_fresh now p ((q, b) ∷ m) d =
    ground (arith, lookup-keep_fresh now p m d.1, text_eq_iff q p)

topped_up-full :
    (l : Limiter) (tokens elapsed : ℕ)
    → l.burst * l.unit ≤ tokens + l.rate * elapsed
    → topped_up l tokens elapsed ≡ l.burst * l.unit
topped_up-full l tokens elapsed h = ground arith

-- A bucket that has had the time to fill up answers like a new one.
refilled_is_fresh :
    (l : Limiter) (tokens last now : ℕ)
    → last ≤ now
    → l.burst * l.unit ≤ tokens + l.rate * (now - last)
    → take_token l (record { tokens = pos tokens; last_check = last }) now
      ≡ take_token l (fresh_bucket l now) now
refilled_is_fresh l tokens last now h f = rw (
  take_token_lem l tokens last now h,
  take_token_lem l (l.burst * l.unit) now now (omega arith),
  topped_up-full l tokens (now - last) f,
  topped_up-full l (l.burst * l.unit) (now - now) (omega arith),
)

mul_mono : (r a b : ℕ) → a ≤ b → r * a ≤ r * b
mul_mono r a b h = grind arith

cleanup_bucket :
    (l : Limiter) (p : Text) (at now : ℕ)
    → Distinct l.buckets
    → bucket_of (cleanup l at) p now
      ≡ (elim (survivor at (lookup p l.buckets)) [ none ↦ fresh_bucket l now | some b ↦ b ])
unfolding bucket_of cleanup
cleanup_bucket l p at now d = rw (lookup-keep_fresh at p l.buckets d, bucket_of)

take_after_cleanup :
    (l : Limiter) (p : Text) (tokens last at now : ℕ)
    → Distinct l.buckets
    → lookup p l.buckets ≡ some (record { tokens = pos tokens; last_check = last })
    → last ≤ at
    → at ≤ now
    → l.burst * l.unit ≤ l.rate * stale_threshold
    → take_token l (bucket_of (cleanup l at) p now) now ≡ take_token l (bucket_of l p now) now
take_after_cleanup l p tokens last at now d e h k f =
    rw (cleanup_bucket l p at now d, bucket_of-known l p now _ e, e)
      (elim (Bool-cases (ltb stale_threshold (at - last))) [
        | inl gone ↦
            let long : stale_threshold ≤ now - last = ground arith in
            rw gone (
              sym (
                refilled_is_fresh l tokens last now (omega arith)
                  (omega (arith, mul_mono l.rate stale_threshold (now - last) long))))
        | inr kept ↦ rw kept
      ])

take_token-cleanup :
    (l : Limiter) (at : ℕ) (b : Bucket) (now : ℕ)
    → take_token (cleanup l at) b now ≡ take_token l b now
unfolding cleanup
take_token-cleanup l at b now = take_token-buckets l _ b now

-- If no principal stands twice and the burst refills within the stale threshold, cleaning up is not
-- noticed: a call for a principal that has a bucket with no negative amount, at or after a cleanup that is
-- not before the bucket's last call, is decided as without the cleanup, and leaves the same bucket.
pub cleanup_unnoticed :
    (l : Limiter) (p : Text) (tokens last at now : ℕ)
    → Distinct l.buckets
    → lookup p l.buckets ≡ some (record { tokens = pos tokens; last_check = last })
    → last ≤ at
    → at ≤ now
    → l.burst * l.unit ≤ l.rate * stale_threshold
    → ((allow (cleanup l at) p now).1 ≡ (allow l p now).1)
      × (lookup p (allow (cleanup l at) p now).0.buckets ≡ lookup p (allow l p now).0.buckets)
cleanup_unnoticed l p tokens last at now d e h k f =
    let same = take_after_cleanup l p tokens last at now d e h k f in
    let after = take_token-cleanup l at (bucket_of (cleanup l at) p now) now ∙ same in
    (
      ground (arith, allow_same l p now, allow_same (cleanup l at) p now, after),
      ground (arith, allow_same l p now, allow_same (cleanup l at) p now, after),
    )

-- A cleanup can forgive: a principal whose bucket is empty, and would still be too empty for a request
-- after more than the stale threshold, is refused, but is let through once the bucket has been evicted,
-- if the burst is at least one.
pub cleanup_forgives :
    (l : Limiter) (p : Text) (last now : ℕ)
    → Distinct l.buckets
    → lookup p l.buckets ≡ some (record { tokens = pos 0; last_check = last })
    → stale_threshold < now - last
    → l.rate * (now - last) < l.unit
    → 0 < l.burst
    → ((allow l p now).1 ≡ false) × ((allow (cleanup l now) p now).1 ≡ true)
cleanup_forgives l p last now d e h k f =
    let fresh : bucket_of (cleanup l now) p now ≡ fresh_bucket l now =
      rw (cleanup_bucket l p now now d, e) (rw (lt→ltb _ _ h)) in
    let held = bucket_of-known l p now _ e in
    let filled = topped_up_le l 0 (now - last) in
    let refused : (take_token l (record { tokens = pos 0; last_check = last }) now).1 ≡ false = rw (
      take_token_lem l 0 last now (omega arith),
      lt→ltb (topped_up l 0 (now - last)) l.unit (omega arith),
    ) in
    let whole : l.unit ≤ l.burst * l.unit =
      omega (arith, mul_mono l.unit 1 l.burst f, mul_comm l.unit l.burst) in
    let granted : (take_token l (fresh_bucket l now) now).1 ≡ true = rw (
      take_token_lem l (l.burst * l.unit) now now (omega arith),
      topped_up-full l (l.burst * l.unit) (now - now) (omega arith),
      le→ltb-false (l.burst * l.unit) l.unit whole,
    ) in
    (
      ground (arith, allow_same l p now, held, refused),
      ground (
        arith,
        allow_same (cleanup l now) p now,
        fresh,
        granted,
        take_token-cleanup l now (fresh_bucket l now) now,
      ),
    )
