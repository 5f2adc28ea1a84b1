-- ===== src/Admin/Server.antt =====
-- internal/admin/server.go: the routes of the admin API behind the bearer token and the limit of requests.
-- net/http has matched the request to its route and read a body of at most the limit; a longer body is one
-- that strictDecode refuses. The host of net.SplitHostPort is a parameter.
use pdag.Common.{
  true, false, not, Text, codes, text_eq, List, [], Option, none, some, if◌then◌else◌, has_prefix,
  trim_prefix,
}
use pdag.Header.{get}
use pdag.ClientIp.{Request}
use pdag.RateLimit.{Limiter, allow}
use pdag.Authn.{Crypto}
use pdag.Admin.{State, Conditions, Reply, error}
use pdag.Admin.Keygen.{Generator, Random}
use pdag.Admin.Handlers.{
  Parsers, CreateKeyRequest, create_key, get_key, list_keys, purge_expired, delete_key,
  set_key_enabled, update_roles, rotate_key, update_allowed_cidrs, set_expiry,
}

-- The patterns of Handler, each with what its handler reads of the request.
pub data Route : Type 0 where
  create_route : Option CreateKeyRequest → Route
  get_route : Text → Route
  list_route : Text → Text → Text → Text → Route
  purge_route : Route
  delete_route disable_route enable_route rotate_route : Text → Route
  roles_route cidrs_route : Text → Option (List Text) → Route
  expiry_route : Text → Option (Option Text) → Route

abbrev pub bearer : Text
bearer = codes "Bearer "

-- The server's state: that of the store, and the rate limiter.
pub record Server : Type 0 where
  pub state : State
  pub limiter : Limiter

module _ (crypto : Crypto) where
  -- withAuth up to the call of the handler: `none`, or the answer that refuses.
  unfoldable pub check_token : Text → Request → Option Reply
  check_token token req =
      let auth = get req.headers (codes "Authorization") in
      if text_eq token []
      then some (error 503 (codes "admin API not configured"))
      else if not (has_prefix bearer auth)
      then some (error 401 (codes "missing bearer token"))
      else if not (text_eq (crypto.hmac token (trim_prefix bearer auth)) (crypto.hmac token token))
      then some (error 401 (codes "invalid bearer token"))
      else none

  -- withAuth
  unfoldable pub with_auth : Text → Request → State → State × Reply → State × Reply
  with_auth token req s next = elim (check_token token req) [
    | some refusal ↦ (s, refusal)
    | none ↦ next
  ]

  module _ (encode_to_string : Text → Text) (keygen : Generator) (parsers : Parsers) where
    -- The handler of a route.
    unfoldable pub handler : Conditions → State → Random → Route → State × Reply
    handler c s random (create_route body) =
        create_key parsers crypto encode_to_string keygen c s random body
    handler c s random (get_route id) = get_key c s id
    handler c s random (list_route limit offset principal role) =
        list_keys parsers c s limit offset principal role
    handler c s random purge_route = purge_expired c s
    handler c s random (delete_route id) = delete_key parsers c s id
    handler c s random (disable_route id) = set_key_enabled parsers false c s id
    handler c s random (enable_route id) = set_key_enabled parsers true c s id
    handler c s random (roles_route id body) = update_roles parsers c s id body
    handler c s random (rotate_route id) =
        rotate_key parsers crypto encode_to_string keygen c s random id
    handler c s random (cidrs_route id body) = update_allowed_cidrs parsers c s id body
    handler c s random (expiry_route id body) = set_expiry parsers c s id body

    unfoldable pub handle : Text → Conditions → State → Random → Request → Route → State × Reply
    handle token c s random req route = with_auth token req s (handler c s random route)

    module _ (split_host_port : Text → Option Text) where
      -- The host of the peer, or its whole address if there is no host.
      abbrev pub peer_host : Text → Text
      peer_host remote_addr = elim (split_host_port remote_addr) [
        | none ↦ remote_addr
        | some host ↦ if text_eq host [] then remote_addr else host
      ]

      -- withRateLimit around Handler.
      unfoldable pub serve_http :
          Text → Conditions → Server → Random → Request → Route → Server × Reply
      serve_http token c srv random req route =
          let (limiter, ok) = allow srv.limiter (peer_host req.remote_addr) c.now in
          let (s, reply) = handle token c srv.state random req route in
          if ok then (record { state = s; limiter = limiter }, reply) else (
            record { state = srv.state; limiter = limiter },
            error 429 (codes "rate limit exceeded"),
          )
