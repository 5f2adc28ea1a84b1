-- ===== src/Authn/Tests.antt =====
-- Requests at a concrete store, with a hash that is the message, padded, and networks of one address.
use pdag.Common.{
  ◌≡◌, ◌⊎◌, refl, true, Text, codes, [], ◌∷◌, ◌++◌, some, length, take, text_eq, lookup,
}
use pdag.Header.{get, canonical_header_key}
use pdag.ClientIp.{Net, Request, client_ip, peer_ip, is_trusted}
use pdag.Store.{KeyRecord}
use pdag.Authn.{
  Crypto, Secrets, Found, absent, found, next, identity, answer, serve_http, cut, after_secret,
  check_key, check_source, authenticate, verify, is_allowed,
}
use pdag.Authn.Admission.{Admitted, serve_http_iff, rejections_alike}

abbrev zeros : Text
zeros = codes "00000000000000000000000000000000"

abbrev padded : Crypto
padded = record { hmac = λ k m. take 32 (m ++ zeros); decode_string = λ s. some s }

abbrev hosts : Net
hosts = record {
  Ip = Text;
  IpNet = Text;
  parse_cidr = some;
  net_contains = text_eq;
  parse_ip = some;
  split_host_port = some;
}

abbrev secrets : Secrets
secrets = (codes "k", codes "x") ∷ []

abbrev alice : KeyRecord
alice = record {
  id = codes "a";
  key_hash = take 32 (codes "pw" ++ zeros);
  hmac_key_id = codes "k";
  principal = codes "alice";
  roles = codes "admin" ∷ [];
  allowed_cidrs = codes "h" ∷ [];
  enabled = true;
  expires_at = some 9;
  created_at = 1;
  updated_at = 1;
}

abbrev request : Request
request = record { remote_addr = codes "h"; headers = (codes "X-Api-Key", codes "a:pw" ∷ []) ∷ [] }

abbrev only_alice : Text → Found
only_alice key_id = found alice

alice_passes :
    (serve_http padded hosts secrets only_alice [] request 5).reply ≡ next (identity alice)
unfolding serve_http answer after_secret check_key check_source authenticate verify is_allowed cut
    canonical_header_key lookup text_eq client_ip peer_ip is_trusted get
alice_passes = refl

serve_http_iff_example : Admitted padded hosts [] request 5 secrets only_alice (identity alice)
serve_http_iff_example =
    (serve_http_iff padded hosts [] request 5 secrets only_alice (identity alice)).0 alice_passes

rejections_alike_example :
    (((answer padded hosts secrets [] request 9 (codes "no") (found alice)).reply
        ≡ next (identity alice))
      ⊎ ((answer padded hosts secrets [] request 9 (codes "no") (found alice)).reply
          ≡ (answer padded hosts secrets [] request 9 (codes "no") absent).reply))
    × (length (answer padded hosts secrets [] request 9 (codes "no") (found alice)).macs
        ≡ length (answer padded hosts secrets [] request 9 (codes "no") absent).macs)
unfolding lookup text_eq
rejections_alike_example =
    rejections_alike padded hosts [] request 9 secrets (codes "no") alice (codes "x")
      (take 32 (codes "pw" ++ zeros)) refl (λ e. cc) refl refl
