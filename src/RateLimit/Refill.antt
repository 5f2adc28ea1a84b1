-- ===== src/RateLimit/Refill.antt =====
-- One bucket under calls of Allow.
use pdag.Common.{
  ℕ, ◌+◌, ◌-◌, ◌*◌, ◌≤◌, ◌≡◌, true, false, arith, ltb, sub_ℕ-pos, pos-add-scale, ltb_ℤ-pos,
  pos-sub-pos, ltb_ℤ, Bool-cases, inl, inr, if◌then◌else◌, pos, sub_ℕ, ◌+ℤ◌, ◌-ℤ◌, ◌≤ℤ◌, scale,
}
use pdag.RateLimit.{Bucket, Limiter, full, take_token}

-- The tokens are between nothing and the burst.
pub record IsFilled (l : Limiter) (b : Bucket) : Type 0 where
  pub some_left : pos 0 ≤ℤ b.tokens
  pub within_burst : b.tokens ≤ℤ full l

pub take_token-within_burst :
    (l : Limiter) (b : Bucket) (now : ℕ) → (take_token l b now).0.tokens ≤ℤ full l
unfolding take_token ◌+ℤ◌ ◌-ℤ◌ sub_ℕ scale ltb_ℤ
take_token-within_burst l b now = ground arith

pub take_token-IsFilled :
    (l : Limiter) (b : Bucket) (now : ℕ)
    → b.last_check ≤ now
    → IsFilled l b
    → IsFilled l (take_token l b now).0
unfolding take_token ◌+ℤ◌ ◌-ℤ◌ sub_ℕ scale ltb_ℤ
take_token-IsFilled l b now h f = ground arith

-- A call that does not come before the last one, on a bucket that is not overdrawn, in plain numbers.
abbrev pub topped_up : Limiter → ℕ → ℕ → ℕ
topped_up l tokens elapsed =
    let filled = tokens + l.rate * elapsed in
    if ltb (l.burst * l.unit) filled then l.burst * l.unit else filled

pub topped_up_le :
    (l : Limiter) (tokens elapsed : ℕ)
    → (topped_up l tokens elapsed ≤ tokens + l.rate * elapsed)
      × (topped_up l tokens elapsed ≤ l.burst * l.unit)
topped_up_le l tokens elapsed = ground arith

pub take_token_lem :
    (l : Limiter) (tokens last now : ℕ)
    → last ≤ now
    → take_token l (record { tokens = pos tokens; last_check = last }) now ≡ (
        let filled = topped_up l tokens (now - last) in
        if ltb filled l.unit
        then (record { tokens = pos filled; last_check = now }, false)
        else (record { tokens = pos (filled - l.unit); last_check = now }, true))
unfolding take_token
take_token_lem l tokens last now h =
    simp (sub_ℕ-pos now last h, pos-add-scale, ltb_ℤ-pos)
      (elim (Bool-cases (ltb (l.burst * l.unit) (tokens + l.rate * (now - last)))) [
        | inl over ↦ simp (over, ltb_ℤ-pos) (ground (arith, pos-sub-pos (l.burst * l.unit) l.unit))
        | inr under ↦
            simp (under, ltb_ℤ-pos)
              (ground (arith, pos-sub-pos (tokens + l.rate * (now - last)) l.unit))
      ])
