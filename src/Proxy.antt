-- ===== src/Proxy.antt =====
-- The Rewrite functions of internal/proxy/balancer/balancer.go (rewriteFunc) and
-- internal/proxy/single/single.go, which are the same code: the headers that go upstream. `in_header`
-- is what the client sent, `out_header` what the ReverseProxy has prepared from it.
mod Tests
use pdag.Common.{
  ℕ, ◌≡◌, refl, Bool, true, false, not, Text, codes, text_eq, text_eq_iff, text_eq_refl, List, [],
  ◌∷◌, Option, none, some, arith, any, if◌then◌else◌, Bool-cases, inl, inr, is_some, lookup,
}
use pdag.Header
use pdag.Header.{Header, canonical_header_key, get, set, del, lookup-set, lookup-del}

-- The outbound request, as far as Rewrite writes to it; SetURL's other fields are net/http's.
pub record Outbound : Type 0 where
  pub headers : Header
  pub host : Text

-- `for key := range pr.In.Header { pr.Out.Header.Del(key) }`
pub delete_all : Header → Header → Header
delete_all [] out = out
delete_all ((key, values) ∷ rest) out = delete_all rest (del out key)

set_unless_empty : Header → Text → Text → Header
set_unless_empty h key value = if text_eq value [] then h else set h key value

unfoldable pub rewrite : Text → Text → Header → Outbound → Outbound
unfolding set_unless_empty
rewrite target_host api_key in_header out =
    let content_type = get in_header (codes "Content-Type") in
    let accept = get in_header (codes "Accept") in
    let bare = delete_all in_header out.headers in
    let keyed = set bare (codes "X-API-Key") api_key in
    let typed = set_unless_empty keyed (codes "Content-Type") content_type in
    record { headers = set_unless_empty typed (codes "Accept") accept; host = target_host }

-- The names that Rewrite sets, in canonical form.
abbrev pub x_api_key : Text
x_api_key = codes "X-Api-Key"

canonical_names :
    (canonical_header_key (codes "X-API-Key") ≡ x_api_key)
    × (canonical_header_key (codes "Content-Type") ≡ codes "Content-Type")
    × (canonical_header_key (codes "Accept") ≡ codes "Accept")
unfolding canonical_header_key
canonical_names = (refl, refl, refl)

-- Every name in `out` is a canonical name of `in_header`.
abbrev pub FromClient : Header → Header → Type 0
FromClient in_header out =
    (k : Text)
    → is_some (lookup k out) ≡ true
    → (is_some (lookup k in_header) ≡ true) × (canonical_header_key k ≡ k)

lookup-delete_all :
    (k : Text) (in_header out : Header)
    → (is_some (lookup k out) ≡ true
        → (is_some (lookup k in_header) ≡ true) × (canonical_header_key k ≡ k))
    → lookup k (delete_all in_header out) ≡ none
unfolding delete_all lookup
lookup-delete_all k [] out h = ground arith
lookup-delete_all k ((key, values) ∷ rest) out h =
    lookup-delete_all k rest (del out key)
      (λ p. ground (arith, lookup-del out key k, text_eq_iff key k, text_eq_refl k))

abbrev pub unless_empty : Text → Option (List Text) → Option (List Text)
unless_empty value else_value = if text_eq value [] then else_value else some (value ∷ [])

lookup-set_unless_empty :
    (h : Header) (key value k : Text)
    → lookup k (set_unless_empty h key value) ≡ (
        if text_eq (canonical_header_key key) k
        then unless_empty value (lookup k h)
        else lookup k h)
unfolding set_unless_empty
lookup-set_unless_empty h key value k = ground (arith, lookup-set h key value k)

-- If the prepared headers have only canonical names that the client sent, then upstream gets the
-- configured key as X-Api-Key, the client's Content-Type and Accept where they are not empty, and no
-- other header: so no client's key, cookie or authorization. The host is the target's.
pub rewrite_headers :
    (target_host api_key : Text) (in_header : Header) (out : Outbound)
    → FromClient in_header out.headers
    → ((k : Text)
        → lookup k (rewrite target_host api_key in_header out).headers ≡ (
            if text_eq (codes "Accept") k
            then unless_empty (get in_header (codes "Accept")) none
            else if text_eq (codes "Content-Type") k
            then unless_empty (get in_header (codes "Content-Type")) none
            else if text_eq x_api_key k
            then some (api_key ∷ [])
            else none))
      × ((rewrite target_host api_key in_header out).host ≡ target_host)
unfolding rewrite
rewrite_headers target_host api_key in_header out h = (
  λ k.
      simp
        (
          lookup-set_unless_empty, lookup-set, canonical_names.0, canonical_names.1,
          canonical_names.2,
        )
        (ground (
          arith,
          lookup-delete_all k in_header out.headers (h k),
          text_eq_iff (codes "Accept") k,
          text_eq_iff (codes "Content-Type") k,
          text_eq_iff x_api_key k,
        )),
  refl,
)
