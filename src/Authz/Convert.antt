-- ===== src/Authz/Convert.antt =====
-- A request that goes to a plugin and back.
use pdag.Common.{
  ◌≡◌, refl, subst, ◌∙◌, Text, text_eq, text_eq_iff, List, [], ◌∷◌, Option, none, some, lookup, put,
  lookup-put, Distinct, inl, inr, Bool-cases,
}
use pdag.Header.{Header}
use pdag.Authz.{Request, stdlib_to_http_request, http_request_to_stdlib, add_headers}

-- The values under a key, from the first map that has some.
abbrev first : Option (List Text) → Option (List Text) → Option (List Text)
first none o = o
first (some vs) o = some vs

first-none : (o : Option (List Text)) → first o none ≡ o
first-none none = refl
first-none (some vs) = refl

lookup-add_headers :
    (header : Header) (headers : List (Text × List Text)) (k : Text)
    → Distinct headers
    → lookup k (add_headers header headers) ≡ first (lookup k headers) (lookup k header)
unfolding add_headers lookup
lookup-add_headers header [] k d = refl
lookup-add_headers header ((key, values) ∷ headers) k d =
    rw (lookup-add_headers (put key values header) headers k d.1, lookup-put)
      (elim (Bool-cases (text_eq key k)) [
        | inl t ↦
            let same : key ≡ k = (text_eq_iff key k).0 t in
            let gone : lookup k headers ≡ none = subst (λ j. lookup j headers ≡ none) same d.0 in
            rw (t, gone) refl
        | inr n ↦ rw n refl
      ])

-- For a request whose header has no name twice, the request that a plugin makes of the message has the
-- same method, path, query, host, length and address, the same values under every name of the header, and
-- the same body; its URL has the request's host.
pub convert_roundtrip :
    (r : Request) (body request_id principal k : Text)
    → Distinct r.header
    → (lookup k
          (http_request_to_stdlib (stdlib_to_http_request r body request_id principal)).0.header
        ≡ lookup k r.header)
      × (record (http_request_to_stdlib (stdlib_to_http_request r body request_id principal)).0 {
        header = r.header;
      }
          ≡ record r { url_host = r.host })
      × ((http_request_to_stdlib (stdlib_to_http_request r body request_id principal)).1 ≡ body)
unfolding stdlib_to_http_request http_request_to_stdlib lookup
convert_roundtrip r body request_id principal k d =
    (lookup-add_headers [] r.header k d ∙ first-none (lookup k r.header), refl, refl)
