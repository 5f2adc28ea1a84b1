-- ===== src/Authz/Tests.antt =====
-- Requests with a sensitive header.
use pdag.Common.{inl, inr, ◌≡◌, ◌≢◌, ◌↔◌, refl, true, Text, codes, List, [], ◌∷◌, pos, text_eq}
use pdag.Header.{Header, canonical_header_key}
use pdag.Manager.{allows, Result}
use pdag.Authz.{Request, HttpRequest, Context, next, plugin_request, serve_http, is_sensitive}
use pdag.Authz.Redaction.{redaction_iff, authz_iff}

abbrev request : Request
request = record {
  method = codes "GET";
  scheme = [];
  url_host = [];
  path = codes "/v1";
  raw_query = [];
  host = codes "h";
  header = (codes "Cookie", codes "a" ∷ []) ∷ (codes "Accept", codes "b" ∷ []) ∷ [];
  content_length = pos 0;
  remote_addr = codes "c";
}

abbrev other : Header
other = (codes "Cookie", codes "z" ∷ []) ∷ (codes "Accept", codes "b" ∷ []) ∷ []

abbrev context : Context
context = record {
  roles = codes "admin" ∷ [];
  body = [];
  request_id = codes "1";
  principal = codes "alice";
}

abbrev allowing : List Text → HttpRequest → Result
allowing roles req = record { decision = allows; plugin = codes "admin"; reason = [] }

cookie_is_sensitive : is_sensitive (codes "cookie") ≡ true
unfolding is_sensitive canonical_header_key text_eq
cookie_is_sensitive = refl

authz_iff_example :
    (((serve_http allowing context request).1 ≡ next request)
      ↔ ((request ≡ request) × (context.roles ≢ []) × (allows ≡ allows)))
    × (((serve_http allowing context request).1 ≡ next request)
        ↔ ((serve_http allowing context request).0.decision ≡ allows))
authz_iff_example = authz_iff allowing context request request

redaction_iff_example :
    plugin_request context request ≡ plugin_request context (record request { header = other })
unfolding canonical_header_key
redaction_iff_example =
    (redaction_iff context request other).1 (refl, inl (inr (inr (inl refl))), (refl, inr refl, tt))
