-- ===== src/Proxy/Tests.antt =====
-- Rewriting at a concrete request.
use pdag.Common.{◌≡◌, refl, codes, [], ◌∷◌, arith, lookup, text_eq, text_eq_iff, put, erase}
use pdag.Header.{Header, canonical_header_key, get, set, del}
use pdag.Proxy.{rewrite, rewrite_headers, delete_all, Outbound, FromClient}

abbrev sent : Header
sent = (codes "X-Api-Key", codes "k1:s" ∷ []) ∷ (codes "Accept", codes "text/plain" ∷ []) ∷ []

abbrev prepared : Outbound
prepared = record { headers = sent; host = codes "gateway" }

sent-FromClient : FromClient sent sent
unfolding lookup canonical_header_key
sent-FromClient k p =
    ground (arith, text_eq_iff (codes "X-Api-Key") k, text_eq_iff (codes "Accept") k)

rewritten :
    (rewrite (codes "dns") (codes "real") sent prepared).headers
    ≡ (codes "Accept", codes "text/plain" ∷ []) ∷ (codes "X-Api-Key", codes "real" ∷ []) ∷ []
unfolding rewrite set get del delete_all lookup canonical_header_key text_eq put erase
rewritten = refl

rewrite_headers_example : (rewrite (codes "dns") (codes "real") sent prepared).host ≡ codes "dns"
rewrite_headers_example =
    (rewrite_headers (codes "dns") (codes "real") sent prepared sent-FromClient).1
