-- ===== src/BodyBuffer/Tests.antt =====
-- Bodies at a limit of four bytes.
use pdag.Common.{◌≡◌, refl, false, codes, Text, some, arith, pos, ltb_ℤ, length}
use pdag.BodyBuffer.{Request, next, too_large, body_buffer, buffer}
use pdag.BodyBuffer.Limit.{restored, body_buffer_iff}

abbrev sent : Text → Request
sent bytes = record {
  body = some (record { bytes = bytes; fails = false });
  content_length = pos (length bytes);
}

five_refused : body_buffer 4 (sent (codes "abcde")) ≡ too_large
unfolding body_buffer buffer ltb_ℤ
five_refused = refl

body_buffer_iff_example :
    body_buffer 4 (sent (codes "ab")) ≡ next (some (codes "ab")) (restored (codes "ab"))
unfolding ltb_ℤ
body_buffer_iff_example =
    (body_buffer_iff 4 (pos 2) (record { bytes = codes "ab"; fails = false }) (codes "ab")
        (restored (codes "ab"))).1
      (refl, refl, omega arith, refl, refl)
