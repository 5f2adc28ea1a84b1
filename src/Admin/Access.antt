-- ===== src/Admin/Access.antt =====
-- Who gets to the handlers of the admin API.
use pdag.Common.{
  ◌≡◌, ◌≢◌, ◌⊎◌, inl, inr, refl, sym, ap, ◌∙◌, Bool, true, Text, text_eq, codes, text_eq_iff,
  text_eq_refl, ◌++◌, [], Option, none, some, arith, Bool-cases, has_prefix, trim_prefix,
  append-trim_prefix, has_prefix-append, trim_prefix-append,
}
use pdag.Header.{get}
use pdag.ClientIp.{Request}
use pdag.Authn.{Crypto}
use pdag.Admin.{State, Conditions, Reply, error}
use pdag.Admin.Keygen.{Generator, Random}
use pdag.Admin.Handlers.{Parsers}
use pdag.Admin.Server.{
  Route, handler, bearer, check_token, with_auth, handle, Server, peer_host, serve_http,
}
use pdag.RateLimit.{allow}

-- A bearer token with the digest of the configured token, which is not empty.
pub record Authorized (crypto : Crypto) (token : Text) (req : Request) : Type 0 where
  pub configured : token ≢ []
  pub given : Text
  pub header : get req.headers (codes "Authorization") ≡ bearer ++ given
  pub digest : crypto.hmac token given ≡ crypto.hmac token token

-- The answers of withAuth.
abbrev pub Refusal : Reply → Type 0
Refusal reply =
    (reply ≡ error 503 (codes "admin API not configured"))
    ⊎ ((reply ≡ error 401 (codes "missing bearer token"))
        ⊎ (reply ≡ error 401 (codes "invalid bearer token")))

module _ (crypto : Crypto) (token : Text) (req : Request) where
  good_token_passes : Authorized crypto token req → check_token crypto token req ≡ none
  unfolding check_token
  good_token_passes a = rw a.header (
      rw (has_prefix-append bearer a.given, trim_prefix-append bearer a.given, a.digest)
        (ground
          (arith, text_eq_iff token [], text_eq_refl (crypto.hmac token token), a.configured)))

  check_token-cases :
      ((check_token crypto token req ≡ none) × Authorized crypto token req)
      ⊎ ((reply : Reply) × (check_token crypto token req ≡ some reply) × Refusal reply)
  unfolding check_token
  check_token-cases = elim (Bool-cases (text_eq token [])) [
    | inl e ↦ inr (_, rw (e, check_token), inl refl)
    | inr e ↦ elim (Bool-cases (has_prefix bearer (get req.headers (codes "Authorization")))) [
      | inr f ↦ inr (_, rw (e, f, check_token), inr (inl refl))
      | inl f ↦
          elim (Bool-cases (
            text_eq
              (crypto.hmac token (trim_prefix bearer (get req.headers (codes "Authorization"))))
              (crypto.hmac token token))) [
                | inr g ↦ inr (_, rw (e, f, g, check_token), inr (inr refl))
                | inl g ↦ inl (
                  rw (e, f, g, check_token),
                  record {
                    configured = λ z. ground (arith, text_eq_iff token []);
                    given = trim_prefix bearer (get req.headers (codes "Authorization"));
                    header =
                        sym (append-trim_prefix bearer (get req.headers (codes "Authorization")) f);
                    digest = (text_eq_iff _ _).0 g;
                  },
                )
              ]
    ]
  ]

  -- With an authorization the reply and the state are the handler's own; without one the state stays as it
  -- was and the reply is 401, or 503.
  pub handle_lem :
      (encode_to_string : Text → Text) (keygen : Generator) (parsers : Parsers) (c : Conditions)
      (s : State) (random : Random) (route : Route)
      → (Authorized crypto token req
          × (handle crypto encode_to_string keygen parsers token c s random req route
              ≡ handler crypto encode_to_string keygen parsers c s random route))
        ⊎ ((¬ Authorized crypto token req)
            × ((handle crypto encode_to_string keygen parsers token c s random req route).0 ≡ s)
            × Refusal (handle crypto encode_to_string keygen parsers token c s random req route).1)
  unfolding handle with_auth
  handle_lem encode_to_string keygen parsers c s random route = elim check_token-cases [
    | inl (e, a) ↦ inl (a, rw (e, handle, with_auth))
    | inr (reply, e, r) ↦ inr (
      λ a. (let clash = sym (good_token_passes a) ∙ e in cc),
      rw (e, handle, with_auth),
      rw (e, handle, with_auth) r,
    )
  ]

  -- The request is granted and authorized, and the outcome is the handler's; or the state stays as it was,
  -- and the reply is a refusal or 429.
  abbrev pub Guarded : Bool → State × Reply → Server → Server × Reply → Type 0
  Guarded granted handled srv out =
      (Authorized crypto token req
        × (granted ≡ true)
        × (out.0.state ≡ handled.0)
        × (out.1 ≡ handled.1))
      ⊎ ((out.0.state ≡ srv.state)
          × (Refusal out.1 ⊎ (out.1 ≡ error 429 (codes "rate limit exceeded"))))

  -- A request gets to the handler of its route, whose state and reply are then the outcome, only if the rate
  -- limiter grants it and it carries a bearer token with the digest of the configured token, which is not
  -- empty. Otherwise the store and its events stay as they were, and the reply is 429, 401 or 503.
  pub guards_handlers :
      (encode_to_string : Text → Text) (keygen : Generator) (parsers : Parsers)
      (split_host_port : Text → Option Text) (c : Conditions) (srv : Server) (random : Random)
      (route : Route)
      → Guarded
          (allow srv.limiter
            (peer_host crypto encode_to_string keygen parsers split_host_port req.remote_addr)
            c.now).1
          (handler crypto encode_to_string keygen parsers c srv.state random route)
          srv
          (serve_http crypto encode_to_string keygen parsers split_host_port token c srv random req
            route)
  unfolding serve_http
  guards_handlers encode_to_string keygen parsers split_host_port c srv random route =
      let host = peer_host crypto encode_to_string keygen parsers split_host_port req.remote_addr in
      elim (Bool-cases (allow srv.limiter host c.now).1) [
        | inr e ↦ rw (e, serve_http) (inr (refl, inr refl))
        | inl e ↦ elim (handle_lem encode_to_string keygen parsers c srv.state random route) [
          | inl (a, h) ↦ rw (e, serve_http) (inl (a, refl, ap (λ o. o.0) h, ap (λ o. o.1) h))
          | inr (n, h, r) ↦ rw (e, serve_http) (inr (h, inl r))
        ]
      ]
