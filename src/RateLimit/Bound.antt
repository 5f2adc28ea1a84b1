-- ===== src/RateLimit/Bound.antt =====
-- How many requests of one principal the limiter lets through.
use native.Mathlib.Nat.{mul-add}
use pdag.Common.{
  ℕ, suc, ◌+◌, ◌-◌, ◌*◌, ◌≤◌, ◌≡◌, refl, ap, ◌∙◌, false, ◌&&◌, Text, text_eq, text_eq_iff,
  text_eq_refl, List, [], ◌∷◌, none, some, arith, ltb, ltb-false→le, if◌then◌else◌, pos, lookup,
  lookup-put, Bool-cases, inl, inr,
}
use pdag.RateLimit.{Bucket, Limiter, new, take_token, fresh_bucket, bucket_of, allow}
use pdag.RateLimit.Refill.{topped_up, topped_up_le, take_token_lem}

-- The times go up from `t` on.
abbrev pub Ascending : ℕ → List ℕ → Type 0
Ascending t [] = Unit
Ascending t (now ∷ times) = (t ≤ now) × Ascending now times

abbrev pub finish : ℕ → List ℕ → ℕ
finish t [] = t
finish t (now ∷ times) = finish now times

finish-ge : (t : ℕ) (times : List ℕ) → Ascending t times → t ≤ finish t times
finish-ge t [] a = omega arith
finish-ge t (now ∷ times) a = omega (arith, finish-ge now times a.1)

-- How many calls at these times a bucket lets through.
pub passed : Limiter → Bucket → List ℕ → ℕ
passed l b [] = 0
passed l b (now ∷ times) =
    let rest = passed l (take_token l b now).0 times in
    if (take_token l b now).1 then suc rest else rest

split_span : (r a b c : ℕ) → a ≤ b → b ≤ c → r * (c - a) ≡ r * (b - a) + r * (c - b)
split_span r a b c h k = ap (λ (n : ℕ). r * n) (omega arith) ∙ mul-add r (b - a) (c - b)

one_more : (n u : ℕ) → suc n * u ≡ n * u + u
one_more n u = grind arith

bucket_bound :
    (l : Limiter) (tokens last : ℕ) (times : List ℕ)
    → Ascending last times
    → passed l (record { tokens = pos tokens; last_check = last }) times * l.unit
      ≤ tokens + l.rate * (finish last times - last)
unfolding passed
bucket_bound l tokens last [] a = omega arith
bucket_bound l tokens last (now ∷ times) a =
    let filled = topped_up l tokens (now - last) in
    let end = finish-ge now times a.1 in
    let span = split_span l.rate last now (finish now times) a.0 end in
    rw (take_token_lem l tokens last now a.0) (elim (Bool-cases (ltb filled l.unit)) [
      | inl short ↦ rw short (
          omega
            (arith, bucket_bound l filled now times a.1, topped_up_le l tokens (now - last), span))
      | inr enough ↦
          let room : l.unit ≤ filled = ltb-false→le filled l.unit enough in
          let left = filled - l.unit in
          let later : ℕ = passed l (record { tokens = pos left; last_check = now }) times in
          rw enough (
            omega (
              arith,
              room,
              one_more later l.unit,
              bucket_bound l left now times a.1,
              topped_up_le l tokens (now - last),
              span,
            ))
    ])

-- The times of the calls of one principal.
abbrev pub times_of : Text → List (ℕ × Text) → List ℕ
times_of p [] = []
times_of p ((now, q) ∷ calls) = if text_eq q p then now ∷ times_of p calls else times_of p calls

-- How many of the calls of Allow for `p` are let through in a run of calls for all principals.
unfoldable pub granted : Limiter → Text → List (ℕ × Text) → ℕ
granted l p [] = 0
granted l p ((now, q) ∷ calls) =
    let rest = granted (allow l q now).0 p calls in
    if text_eq q p && (allow l q now).1 then suc rest else rest

-- Calls for one principal do not touch another's bucket.
pub allow_other :
    (l : Limiter) (p q : Text) (now : ℕ)
    → text_eq q p ≡ false
    → lookup p (allow l q now).0.buckets ≡ lookup p l.buckets
unfolding allow
allow_other l p q now d = rw (lookup-put, d)

pub take_token-buckets :
    (l : Limiter) (m : List (Text × Bucket)) (b : Bucket) (now : ℕ)
    → take_token (record l { buckets = m }) b now ≡ take_token l b now
unfolding take_token
take_token-buckets l m b now = refl

passed-buckets :
    (l : Limiter) (m : List (Text × Bucket)) (b : Bucket) (times : List ℕ)
    → passed (record l { buckets = m }) b times ≡ passed l b times
unfolding passed
passed-buckets l m b [] = refl
passed-buckets l m b (now ∷ times) =
    simp (take_token-buckets, passed-buckets l m (take_token l b now).0 times)

passed-allow :
    (l : Limiter) (q : Text) (t : ℕ) (b : Bucket) (times : List ℕ)
    → passed (allow l q t).0 b times ≡ passed l b times
unfolding allow
passed-allow l q t b times = passed-buckets l _ b times

-- A call for `p` is a call on its bucket.
pub allow_same :
    (l : Limiter) (p : Text) (now : ℕ)
    → (lookup p (allow l p now).0.buckets ≡ some (take_token l (bucket_of l p now) now).0)
      × ((allow l p now).1 ≡ (take_token l (bucket_of l p now) now).1)
unfolding allow
allow_same l p now = (rw (lookup-put, text_eq_refl), refl)

pub bucket_of-known :
    (l : Limiter) (p : Text) (now : ℕ) (b : Bucket)
    → lookup p l.buckets ≡ some b
    → bucket_of l p now ≡ b
unfolding bucket_of
bucket_of-known l p now b e = rw (e, bucket_of)

granted_known :
    (l : Limiter) (p : Text) (b : Bucket) (calls : List (ℕ × Text))
    → lookup p l.buckets ≡ some b
    → granted l p calls ≡ passed l b (times_of p calls)
unfolding granted passed
granted_known l p b [] e = refl
granted_known l p b ((now, q) ∷ calls) e = elim (Bool-cases (text_eq q p)) [
  | inl same ↦
      let q_is_p = (text_eq_iff q p).0 same in
      rw (q_is_p, text_eq_refl)
        (let known = bucket_of-known l p now b e in
          let step = allow_same l p now in
          let rest =
            granted_known (allow l p now).0 p (take_token l b now).0 calls
              (ground (arith, known, step.0)) in
          ground (
            arith,
            known,
            step,
            rest,
            passed-allow l p now (take_token l b now).0 (times_of p calls),
          ))
  | inr other ↦ rw other (
      granted_known (allow l q now).0 p b calls (allow_other l p q now other ∙ e)
      ∙ passed-allow l q now b (times_of p calls))
]

bucket_of-unknown :
    (l : Limiter) (p : Text) (now : ℕ)
    → lookup p l.buckets ≡ none
    → bucket_of l p now ≡ fresh_bucket l now
unfolding bucket_of
bucket_of-unknown l p now e = rw (e, bucket_of)

-- The first call of a principal makes a full bucket at its own time.
passed_from : Limiter → List ℕ → ℕ
passed_from l [] = 0
passed_from l (now ∷ times) = passed l (fresh_bucket l now) (now ∷ times)

passed_from-buckets :
    (l : Limiter) (q : Text) (t : ℕ) (times : List ℕ)
    → passed_from (allow l q t).0 times ≡ passed_from l times
unfolding passed_from allow
passed_from-buckets l q t [] = refl
passed_from-buckets l q t (now ∷ times) = passed-buckets l _ (fresh_bucket l now) (now ∷ times)

granted_unknown :
    (l : Limiter) (p : Text) (calls : List (ℕ × Text))
    → lookup p l.buckets ≡ none
    → granted l p calls ≡ passed_from l (times_of p calls)
unfolding granted passed passed_from
granted_unknown l p [] e = refl
granted_unknown l p ((now, q) ∷ calls) e = elim (Bool-cases (text_eq q p)) [
  | inl same ↦
      let q_is_p = (text_eq_iff q p).0 same in
      rw (q_is_p, text_eq_refl)
        (let known = bucket_of-unknown l p now e in
          let step = allow_same l p now in
          let b = (take_token l (fresh_bucket l now) now).0 in
          let rest = granted_known (allow l p now).0 p b calls (ground (arith, known, step.0)) in
          ground (arith, known, step, rest, passed-allow l p now b (times_of p calls)))
  | inr other ↦ rw other (
      granted_unknown (allow l q now).0 p calls (allow_other l p q now other ∙ e)
      ∙ passed_from-buckets l q now (times_of p calls))
]

passed_from_bound :
    (l : Limiter) (start : ℕ) (times : List ℕ)
    → Ascending start times
    → passed_from l times * l.unit ≤ l.burst * l.unit + l.rate * (finish start times - start)
unfolding passed_from
passed_from_bound l start [] a = omega arith
passed_from_bound l start (now ∷ times) a =
    let end = finish-ge now times a.1 in
    omega (
      arith,
      bucket_bound l (l.burst * l.unit) now (now ∷ times) (omega arith, a.1),
      split_span l.rate start now (finish now times) a.0 end,
    )

-- In exact arithmetic a new limiter lets through, of the calls for one principal at times that do not go down, at most
-- the burst and what the rate brings between the start and the last of them, whatever calls for other
-- principals come in between. No bucket is evicted on the way.
pub granted_bound :
    (rate unit burst start : ℕ) (p : Text) (calls : List (ℕ × Text))
    → Ascending start (times_of p calls)
    → granted (new rate unit burst) p calls * unit
      ≤ burst * unit + rate * (finish start (times_of p calls) - start)
unfolding new
granted_bound rate unit burst start p calls a =
    rw (granted_unknown (new rate unit burst) p calls (unfold lookup in refl))
      (passed_from_bound (new rate unit burst) start (times_of p calls) a)
