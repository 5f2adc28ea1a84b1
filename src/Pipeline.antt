-- ===== src/Pipeline.antt =====
-- cmd/pdag/serve.go: the middlewares in the order of newProxyServer, around the backend. A handler takes the
-- request, its context, and the world that all handlers share, and gives the world that it leaves: what the
-- context's pointers point to, the rate limiter, the audit log, the counted requests, and the requests that
-- the backend got. A panic is a mark on the world that stops what would come after the call. The middlewares
-- that have a model of their own are called by it; the span of the tracing middleware is left out.
pub mod Layers
pub mod Gate
pub mod Log
pub mod Trail
mod Tests
use pdag.Common.{
  ℕ, ◌+◌, Bool, true, false, not, ◌&&◌, Text, codes, text_eq, List, [], ◌∷◌, Option, none, some,
  length, is_empty, if◌then◌else◌, ltb,
}
use pdag.Header.{get}
use pdag.ClientIp.{Net, client_ip}
use pdag.ClientIp as ClientIp
use pdag.HttpRoute.{normalize}
use pdag.Authn.{Crypto, Secrets, Found, Identity, Outcome}
use pdag.Authn as Authn
use pdag.RateLimit.{Limiter, Passage, too_many_requests}
use pdag.RateLimit as RateLimit
use pdag.BodyBuffer.{Body}
use pdag.BodyBuffer as BodyBuffer
use pdag.Authz as Authz
use pdag.Manager.{Decision, allows, denies, Result}
use pdag.Audit.{Encoding, sanitize_body}
use pdag.AuditLog.{Entry, Logger, publish, reserve, commit}
use pdag.Context.{
  AuthzResult, Context, background, with_request_id, with_principal, with_key_id, with_roles,
  with_body_bytes, with_body_size_ptr, with_body_bytes_ptr, with_authz_result_ptr,
  with_status_code_ptr,
}

pub record Request : Type 0 where
  pub http : Authz.Request
  pub body : Option Body

-- The limiter and the log of the gateway, the labels of the counted requests, the requests that the backend
-- got, with their bodies, and whether a commit has to wait; of this request, what the pointers point to, and
-- whether its handler has panicked.
pub record World : Type 0 where
  pub limiter : Limiter
  pub log : Logger
  pub counted : List (Text × Text × ℕ)
  pub forwarded : List (Authz.Request × Option Text)
  pub waits : Bool
  pub status_code : ℕ
  pub body_size : ℕ
  pub body_bytes : Text
  pub authz_result : AuthzResult
  pub panicked : Bool

abbrev pub Handler : Type 0
Handler = Request → Context → World → World

-- Chain
unfoldable pub chain : List (Handler → Handler) → Handler → Handler
chain [] final = final
chain (middleware ∷ middlewares) final = middleware (chain middlewares final)

abbrev pub http_error : ℕ → World → World
http_error code w = record w { status_code = code }

-- RequestID
abbrev pub request_id : Text → Handler → Handler
request_id id next r ctx w = next r (with_request_id ctx id) w

-- What metrics.Middleware counts after the call.
abbrev pub count_request : Request → World → World
count_request r w =
    if w.panicked
    then w
    else record w { counted = (r.http.method, normalize r.http.path, w.status_code) ∷ w.counted }

-- metrics.Middleware with its StatusRecorder, which has 200 until a status is written.
unfoldable pub metrics : Handler → Handler
metrics next r ctx w = count_request r (
    next r (with_status_code_ptr (with_body_size_ptr ctx))
      (record w { status_code = 200; body_size = 0 }))

-- ratelimit.Middleware
unfoldable pub rate_limit : ℕ → Handler → Handler
rate_limit now next r ctx w =
    let (limiter, passage) = RateLimit.middleware w.limiter ctx.principal now in
    elim passage [
      | too_many_requests ↦ http_error 429 (record w { limiter = limiter })
      | RateLimit.next ↦ next r ctx (record w { limiter = limiter })
    ]

-- The request with the body and the length that the body buffer gives it.
abbrev pub with_body : Request → BodyBuffer.Request → Request
with_body r b = record { http = record r.http { content_length = b.content_length }; body = b.body }

abbrev pub bytes_of : Option Text → Text
bytes_of none = []
bytes_of (some body) = body

-- What the body buffer writes through the pointers.
abbrev pub write_body : Context → Option Text → World → World
write_body ctx none w = w
write_body ctx (some body) w = record w {
  body_size = if ctx.body_size_ptr then length body else w.body_size;
  body_bytes = if ctx.body_bytes_ptr then body else w.body_bytes;
}

-- BodyBuffer
unfoldable pub buffer_body : ℕ → Handler → Handler
buffer_body max_bytes next r ctx w =
    elim (BodyBuffer.body_buffer max_bytes
      (record { body = r.body; content_length = r.http.content_length })) [
        | BodyBuffer.error code message ↦ http_error code w
        | BodyBuffer.next body b ↦
            next (with_body r b) (with_body_bytes ctx (bytes_of body)) (write_body ctx body w)
      ]

abbrev pub decision_text : Decision → Text
decision_text allows = codes "allow"
decision_text denies = codes "deny"

abbrev pub written_result : Result → AuthzResult
written_result res = record {
  decision = decision_text res.decision;
  plugin = res.plugin;
  reason = res.reason;
}

abbrev pub write_result : Context → Result → World → World
write_result ctx res w =
    if ctx.authz_result_ptr then record w { authz_result = written_result res } else w

abbrev pub authz_context : Context → Authz.Context
authz_context ctx = record {
  roles = ctx.roles;
  body = ctx.body_bytes;
  request_id = ctx.request_id;
  principal = ctx.principal;
}

-- authz.Middleware
unfoldable pub authorize_request : (List Text → Authz.HttpRequest → Result) → Handler → Handler
authorize_request authorize next r ctx w =
    let (res, reply) = Authz.serve_http authorize (authz_context ctx) r.http in
    elim reply [
      | Authz.forbidden message ↦ http_error 403 (write_result ctx res w)
      | Authz.next http ↦ next (record r { http = http }) ctx (write_result ctx res w)
    ]

abbrev pub sent_body : Option Body → Option Text
sent_body none = none
sent_body (some b) = some b.bytes

-- The backend: it answers with a status, or the proxy panics.
unfoldable pub proxy : (Request → Option ℕ) → Handler
proxy backend r ctx w =
    let sent = record w { forwarded = (r.http, sent_body r.body) ∷ w.forwarded } in
    elim (backend r) [
      | none ↦ record sent { panicked = true }
      | some status ↦ record sent { status_code = status }
    ]

-- Options of internal/audit/middleware.go.
pub record Options : Type 0 where
  pub log_body : Bool
  pub fail_closed : Bool
  pub body_max_bytes : ℕ
  pub redact_fields : List Text

-- What a request meets: the readings of the clock, whether Reserve's context is done before it gets a
-- permit, and the new UUID.
pub record Moment : Type 0 where
  pub now : ℕ
  pub timestamp : ℕ
  pub latency_ms : ℕ
  pub gives_up : Bool
  pub uuid : Text

-- The logger's publish and commit, in the world.
abbrev pub publish_entry : Bool → Entry → World → World
publish_entry gives_up e w = record w { log = (publish w.log e gives_up).0 }

abbrev pub commit_entry : Entry → World → World
commit_entry e w = elim (commit w.log e) [
  | none ↦ record w { waits = true }
  | some log ↦ record w { log = log }
]

module _ (net : Net) (crypto : Crypto) (ip_string : net.Ip → Text) (encoding : Encoding) where
  -- The request as clientip sees it.
  abbrev pub peer_of : Request → ClientIp.Request
  peer_of r = record { remote_addr = r.http.remote_addr; headers = r.http.header }

  -- The context of a request whose key is good.
  abbrev pub with_identity : Context → Identity → Context
  with_identity ctx who =
      with_roles (with_key_id (with_principal ctx who.principal) who.key_id) who.roles

  -- hmac.Middleware
  unfoldable pub authenticate_request :
      Secrets → (Text → Found) → List net.IpNet → ℕ → Handler → Handler
  authenticate_request secrets get_by_id trusted now next r ctx w =
      elim (Authn.serve_http crypto net secrets get_by_id trusted (peer_of r) now).reply [
        | Authn.error code message ↦ http_error code w
        | Authn.next who ↦ next r (with_identity ctx who) w
      ]

  abbrev pub source_ip : Option net.Ip → Text
  source_ip none = []
  source_ip (some ip) = ip_string ip

  abbrev pub user_agent : Text
  user_agent = codes "User-Agent"

  -- buildEntry, with the context that the audit middleware has.
  unfoldable pub build_entry : Options → List net.IpNet → Moment → Request → Context → World → Entry
  build_entry opts trusted m r ctx w = record {
    timestamp = m.timestamp;
    request_id = ctx.request_id;
    principal = ctx.principal;
    key_id = ctx.key_id;
    method = r.http.method;
    path = r.http.path;
    query = r.http.raw_query;
    source_ip = source_ip (client_ip net trusted (peer_of r));
    user_agent = get r.http.header user_agent;
    status_code = if ctx.status_code_ptr then w.status_code else 200;
    latency_ms = m.latency_ms;
    authz_decision = w.authz_result.decision;
    authz_plugin = w.authz_result.plugin;
    authz_reason = w.authz_result.reason;
    request_body =
        if opts.log_body && not (is_empty w.body_bytes)
        then sanitize_body encoding w.body_bytes opts.body_max_bytes opts.redact_fields
        else none;
  }

  -- The context and the world that the audit middleware hands on: the result and the body are its own.
  abbrev pub audit_context : Options → Context → Context
  audit_context opts ctx =
      if opts.log_body
      then with_body_bytes_ptr (with_authz_result_ptr ctx)
      else with_authz_result_ptr ctx

  abbrev pub audit_world : World → World
  audit_world w = record w {
    authz_result = record { decision = []; plugin = []; reason = [] };
    body_bytes = [];
  }

  -- audit.Middleware with the file logger, which is a Reserver.
  unfoldable pub audit : Options → List net.IpNet → Moment → Handler → Handler
  unfolding build_entry
  audit opts trusted m next r ctx w =
      let inner = audit_context opts ctx in
      let start = audit_world w in
      let open_end = next r inner start in
      let (log, ok) = reserve start.log m.gives_up in
      let closed_end = next r inner (record start { log = log }) in
      if opts.fail_closed
      then (if ok
          then commit_entry (build_entry opts trusted m r inner closed_end) closed_end
          else http_error 503 (record start { log = log }))
      else if open_end.panicked
      then open_end
      else publish_entry m.gives_up (build_entry opts trusted m r inner open_end) open_end

  module _ (opts : Options) (trusted : List net.IpNet) (secrets : Secrets)
      (get_by_id : Text → Found) (max_bytes : ℕ)
      (authorize : List Text → Authz.HttpRequest → Result) (backend : Request → Option ℕ) where
    -- The handler of newProxyServer behind the audit middleware.
    unfoldable pub inner_handler : ℕ → Handler
    inner_handler now =
        chain
          (authenticate_request secrets get_by_id trusted now
            ∷ rate_limit now
            ∷ buffer_body max_bytes
            ∷ authorize_request authorize
            ∷ [])
          (proxy backend)

    -- The handler of newProxyServer, for one request.
    unfoldable pub proxy_handler : Moment → Handler
    unfolding chain
    proxy_handler m =
        chain
          (request_id m.uuid
            ∷ metrics
            ∷ audit opts trusted m
            ∷ authenticate_request secrets get_by_id trusted m.now
            ∷ rate_limit m.now
            ∷ buffer_body max_bytes
            ∷ authorize_request authorize
            ∷ [])
          (proxy backend)

    unfoldable pub serve : Moment → Request → World → World
    serve m r w = proxy_handler m r background (record w { panicked = false })
