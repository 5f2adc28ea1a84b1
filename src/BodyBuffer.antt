-- ===== src/BodyBuffer.antt =====
-- internal/middleware/bodybuffer.go: the request body read into memory, up to a limit. A body is the bytes
-- that its reader gives before it ends, and whether it then fails; the limit is below 2^63 - 1.
pub mod Limit
mod Tests
use pdag.Common.{
  ℕ, ◌+◌, Bool, true, false, ◌&&◌, Text, codes, List, [], ◌∷◌, Option, none, some, length, take,
  leb, ltb, if◌then◌else◌, ℤ, pos, negsuc, pos_part, ltb_ℤ,
}

pub record Body : Type 0 where
  pub bytes : Text
  pub fails : Bool

-- `body` is none for nil and http.NoBody.
pub record Request : Type 0 where
  pub body : Option Body
  pub content_length : ℤ

-- The error with its status, or the next handler with the body of the context, and the body and the length
-- that the request has then.
pub data Reply : Type 0 where
  error : ℕ → Text → Reply
  next : Option Text → Request → Reply

-- io.ReadAll of an io.LimitReader; `none` is an error.
unfoldable pub read_limited : ℕ → Body → Option Text
read_limited n b =
    if leb n (length b.bytes) then some (take n b.bytes) else if b.fails then none else some b.bytes

abbrev pub too_large : Reply
too_large = error 413 (codes "request body too large")

-- What follows the read.
unfoldable pub after_read : ℕ → Option Text → Reply
after_read max_bytes none = error 500 (codes "failed to read request body")
after_read max_bytes (some body) =
    if ltb max_bytes (length body)
    then too_large
    else next (some body) (record {
      body = some (record { bytes = body; fails = false });
      content_length = pos (length body);
    })

unfoldable pub buffer : ℕ → ℤ → Body → Reply
unfolding read_limited after_read
buffer max_bytes content_length body =
    if ltb 0 max_bytes && ltb_ℤ (pos max_bytes) content_length
    then too_large
    else after_read max_bytes (read_limited (max_bytes + 1) body)

unfoldable pub body_buffer : ℕ → Request → Reply
body_buffer max_bytes r = elim r.body [
  | none ↦ next none r
  | some body ↦ buffer max_bytes r.content_length body
]
