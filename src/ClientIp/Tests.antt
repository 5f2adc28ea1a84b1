-- ===== src/ClientIp/Tests.antt =====
-- Addresses of one letter, and networks of one address.
use pdag.Common.{
  ℕ, ◌==◌, ◌≡◌, refl, Text, codes, text_eq, split, trim_space, List, [], ◌∷◌, Option, none, some,
  lookup, put,
}
use pdag.Header.{get, set, canonical_header_key}
use pdag.ClientIp.{Net, Request, is_trusted, peer_ip, walk, client_ip}
use pdag.ClientIp.Spoofing.{forwarded, made_up_hops_ignored}

abbrev letter : Text → Option ℕ
letter (c ∷ []) = some c
letter _ = none

abbrev letters : Net
letters = record {
  Ip = ℕ;
  IpNet = ℕ;
  parse_cidr = letter;
  net_contains = λ n ip. n == ip;
  parse_ip = letter;
  split_host_port = λ addr. none;
}

abbrev request : Request
request = record { remote_addr = codes "p"; headers = [] }

abbrev proxies : List ℕ
proxies = b'p' ∷ b'q' ∷ []

last_untrusted : client_ip letters proxies (forwarded request (codes "a, b, q")) ≡ some b'b'
unfolding client_ip peer_ip walk split get set canonical_header_key lookup put text_eq trim_space
last_untrusted = refl

-- With a further line of the client's own.
abbrev two_lines : Request
two_lines = record request {
  headers = (codes "X-Forwarded-For", codes "z,b, q" ∷ codes "y" ∷ []) ∷ [];
}

made_up_hops_ignored_example :
    client_ip letters proxies two_lines
    ≡ client_ip letters proxies (forwarded request (codes "b, q"))
unfolding get set canonical_header_key lookup put text_eq split trim_space is_trusted
made_up_hops_ignored_example =
    made_up_hops_ignored letters proxies two_lines (forwarded request (codes "b, q")) (codes "z")
      (codes "b, q") refl refl refl refl refl
