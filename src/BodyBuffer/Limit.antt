-- ===== src/BodyBuffer/Limit.antt =====
-- Which bodies are passed on.
use pdag.Common.{
  ℕ, ◌+◌, ◌≤◌, ◌<◌, ◌≡◌, ◌↔◌, refl, true, false, ◌&&◌, Text, codes, some, arith, length,
  length-take, take, leb, ltb, if◌then◌else◌, inl, inr, Bool-cases, ℤ, pos, ltb_ℤ, lt→ltb,
  le→ltb-false,
}
use pdag.BodyBuffer.{
  Body, Request, error, next, read_limited, too_large, after_read, buffer, body_buffer,
}

-- The request that a body is passed on with.
abbrev pub restored : Text → Request
restored body = record {
  body = some (record { bytes = body; fails = false });
  content_length = pos (length body);
}

-- Of a body that is too long one byte more than the limit is read, and refused.
long_body :
    (max_bytes : ℕ) (b : Body)
    → leb (max_bytes + 1) (length b.bytes) ≡ true
    → (after_read max_bytes (read_limited (max_bytes + 1) b) ≡ too_large)
      × (max_bytes < length b.bytes)
unfolding after_read read_limited
long_body max_bytes b t =
    let over : max_bytes + 1 ≤ length b.bytes = ground arith in
    let cut : max_bytes < length (take (max_bytes + 1) b.bytes) =
      omega (arith, length-take (max_bytes + 1) b.bytes, over) in
    (
      rw (t, lt→ltb max_bytes (length (take (max_bytes + 1) b.bytes)) cut, after_read) refl,
      omega (arith, over),
    )

short_body :
    (max_bytes : ℕ) (b : Body)
    → leb (max_bytes + 1) (length b.bytes) ≡ false
    → (after_read max_bytes (read_limited (max_bytes + 1) b) ≡ (
        if b.fails
        then error 500 (codes "failed to read request body")
        else next (some b.bytes) (restored b.bytes)))
      × (length b.bytes ≤ max_bytes)
unfolding after_read read_limited
short_body max_bytes b f =
    let under : length b.bytes ≤ max_bytes = ground arith in
    let fits = le→ltb-false max_bytes (length b.bytes) under in (ground arith, under)

after_read_iff :
    (max_bytes : ℕ) (b : Body) (body : Text) (r : Request)
    → (after_read max_bytes (read_limited (max_bytes + 1) b) ≡ next (some body) r)
      ↔ ((b.bytes ≡ body) × (b.fails ≡ false) × (length body ≤ max_bytes) × (r ≡ restored body))
after_read_iff max_bytes b body r = elim (Bool-cases (leb (max_bytes + 1) (length b.bytes))) [
  | inl t ↦ let (e, l) = long_body max_bytes b t in ground arith
  | inr f ↦ let (e, l) = short_body max_bytes b f in ground arith
]

-- A request with a body is passed on with a body exactly if that is the whole of its own body, which is read
-- without an error, is at most as long as the limit, and was not declared longer than a limit above 0; the
-- request then has this body again, and its length.
pub body_buffer_iff :
    (max_bytes : ℕ) (content_length : ℤ) (b : Body) (body : Text) (r : Request)
    → (body_buffer max_bytes (record { body = some b; content_length = content_length })
        ≡ next (some body) r)
      ↔ ((b.bytes ≡ body)
          × (b.fails ≡ false)
          × (length body ≤ max_bytes)
          × ((ltb 0 max_bytes && ltb_ℤ (pos max_bytes) content_length) ≡ false)
          × (r ≡ restored body))
unfolding body_buffer buffer
body_buffer_iff max_bytes content_length b body r =
    ground (arith, after_read_iff max_bytes b body r)
