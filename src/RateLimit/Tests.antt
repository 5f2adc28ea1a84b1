-- ===== src/RateLimit/Tests.antt =====
-- The limiter at concrete inputs: a burst of 2, and one token each second.
use pdag.Common.{
  ℕ, ◌*◌, ◌+◌, ◌-◌, ◌≤◌, ◌≡◌, refl, true, false, Text, codes, text_eq, List, [], ◌∷◌, arith, pos,
  lookup, put, erase, ◌+ℤ◌, ◌-ℤ◌, sub_ℕ, scale, ltb_ℤ,
}
use pdag.RateLimit.{Limiter, new, take_token, bucket_of, allow, cleanup}
use pdag.RateLimit.Bound.{granted, granted_bound}
use pdag.RateLimit.Eviction.{cleanup_forgives}

abbrev second : ℕ
second = 1000000000

abbrev calls : List (ℕ × Text)
calls = (5, codes "a") ∷ (6, codes "b") ∷ (7, codes "a") ∷ (8, codes "a") ∷ []

two_pass : granted (new 1 second 2) (codes "a") calls ≡ 2
unfolding granted new allow take_token bucket_of lookup put erase text_eq ◌+ℤ◌ ◌-ℤ◌ sub_ℕ scale
    ltb_ℤ
two_pass = refl

granted_bound_example :
    granted (new 1 second 2) (codes "a") calls * second ≤ 2 * second + 1 * (8 - 0)
unfolding text_eq
granted_bound_example = granted_bound 1 second 2 0 (codes "a") calls (omega arith)

abbrev emptied : ℕ → Limiter
emptied unit = record {
  buckets = (codes "a", record { tokens = pos 0; last_check = 0 }) ∷ [];
  rate = 1;
  unit = unit;
  burst = 2;
}

-- At one token in 1000 seconds.
cleanup_forgives_example :
    ((allow (emptied (1000 * second)) (codes "a") 400000000000).1 ≡ false)
    × ((allow (cleanup (emptied (1000 * second)) 400000000000) (codes "a") 400000000000).1 ≡ true)
unfolding lookup text_eq
cleanup_forgives_example =
    cleanup_forgives (emptied (1000 * second)) (codes "a") 0 400000000000 (refl, tt) refl
      (omega arith) (omega arith) (omega arith)
