-- ===== src/Admin/Keygen.antt =====
-- internal/admin/hmac/keygen.go: the generator of IDs and secrets. The random bytes come with the request,
-- `none` where rand.Read fails; the hexadecimal digits are those of encoding/hex, and a parameter.
use pdag.Common.{Text, codes, ◌++◌, Option, none, some}
use pdag.Authn.{Crypto}

pub record Generator : Type 0 where
  pub hmac_key_id : Text
  pub hmac_secret : Text

-- What rand.Read brings for an ID and for a secret.
pub record Random : Type 0 where
  pub id_bytes : Option Text
  pub secret_bytes : Option Text

abbrev with_prefix : Text → (Text → Text) → Option Text → Option Text
with_prefix prefix encode none = none
with_prefix prefix encode (some bytes) = some (prefix ++ encode bytes)

module _ (crypto : Crypto) (encode_to_string : Text → Text) where
  abbrev pub generate_key_id : Random → Option Text
  generate_key_id r = with_prefix (codes "k_") encode_to_string r.id_bytes

  abbrev pub generate_secret : Random → Option Text
  generate_secret r = with_prefix (codes "pdg_") encode_to_string r.secret_bytes

  abbrev pub hash : Generator → Text → Text
  hash g plaintext = encode_to_string (crypto.hmac g.hmac_secret plaintext)
