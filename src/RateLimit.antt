-- ===== src/RateLimit.antt =====
-- internal/ratelimit/token/limiter.go and internal/ratelimit/middleware.go. A time is in nanoseconds,
-- the elapsed time is signed. The float64 amounts are exact here, in fractions of a token: `unit` of
-- them make one token, and `rate` of them come in each nanosecond. Calls are taken one at a time, in
-- the order of the bucket's mutex.
pub mod Refill
pub mod Bound
pub mod Eviction
mod Tests
use pdag.Common.{
  ℕ, ◌+◌, ◌-◌, ◌*◌, Bool, true, false, Text, text_eq, List, [], ◌∷◌, Option, none, some, ltb,
  if◌then◌else◌, ℤ, pos, negsuc, pos_part, neg_part, sub_ℕ, ◌+ℤ◌, ◌-ℤ◌, scale, ltb_ℤ, lookup, put,
}

pub record Bucket : Type 0 where
  pub tokens : ℤ
  pub last_check : ℕ

pub record Limiter : Type 0 where
  pub buckets : List (Text × Bucket)
  pub rate : ℕ
  pub unit : ℕ
  pub burst : ℕ

-- 5 * time.Minute
abbrev pub stale_threshold : ℕ
stale_threshold = 300000000000

unfoldable pub new : ℕ → ℕ → ℕ → Limiter
new rate unit burst = record { buckets = []; rate = rate; unit = unit; burst = burst }

abbrev pub full : Limiter → ℤ
full l = pos (l.burst * l.unit)

abbrev pub min_ℤ : ℤ → ℤ → ℤ
min_ℤ a b = if ltb_ℤ b a then b else a

-- The part of Allow under the bucket's lock.
unfoldable pub take_token : Limiter → Bucket → ℕ → Bucket × Bool
take_token l b now =
    let elapsed = sub_ℕ now b.last_check in
    let refilled = min_ℤ (b.tokens +ℤ scale l.rate elapsed) (full l) in
    if ltb_ℤ refilled (pos l.unit)
    then (record { tokens = refilled; last_check = now }, false)
    else (record { tokens = refilled -ℤ pos l.unit; last_check = now }, true)

abbrev pub fresh_bucket : Limiter → ℕ → Bucket
fresh_bucket l now = record { tokens = full l; last_check = now }

-- Load, or LoadOrStore of a full bucket.
unfoldable pub bucket_of : Limiter → Text → ℕ → Bucket
bucket_of l principal now = elim (lookup principal l.buckets) [
  | none ↦ fresh_bucket l now
  | some b ↦ b
]

unfoldable pub allow : Limiter → Text → ℕ → Limiter × Bool
allow l principal now =
    let (b, ok) = take_token l (bucket_of l principal now) now in
    (record l { buckets = put principal b l.buckets }, ok)

pub keep_fresh : ℕ → List (Text × Bucket) → List (Text × Bucket)
keep_fresh now [] = []
keep_fresh now ((principal, b) ∷ m) =
    let rest = keep_fresh now m in
    if ltb stale_threshold (now - b.last_check) then rest else (principal, b) ∷ rest

unfoldable pub cleanup : Limiter → ℕ → Limiter
cleanup l now = record l { buckets = keep_fresh now l.buckets }

-- What the middleware does with a request: it goes on to the next handler, or is answered with 429
-- and Retry-After: 1.
pub data Passage : Type 0 where
  next too_many_requests : Passage

unfoldable pub middleware : Limiter → Text → ℕ → Limiter × Passage
middleware l principal now =
    if text_eq principal []
    then (l, next)
    else (let (l', ok) = allow l principal now in
        if ok then (l', next) else (l', too_many_requests))
