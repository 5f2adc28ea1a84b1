-- ===== src/Authz.antt =====
-- internal/authz/middleware.go: the request that the plugins get to see, and what becomes of it.
-- sdk/convert.go: the request on its way to a plugin and back. The body is read already, and beside the
-- request. The authorizer is a parameter, with the interface of internal/authz/authz.go.
pub mod Redaction
pub mod Convert
mod Tests
use pdag.Common.{
  ℕ, ℤ, Bool, true, false, Text, codes, text_eq, List, [], ◌∷◌, Option, none, some, any, is_empty,
  if◌then◌else◌, put,
}
use pdag.Header.{Header, canonical_header_key}
use pdag.Manager.{Decision, allows, denies, Result, is_allow, no_roles}

-- What is converted of an http.Request, with its URL.
pub record Request : Type 0 where
  pub method : Text
  pub scheme : Text
  pub url_host : Text
  pub path : Text
  pub raw_query : Text
  pub host : Text
  pub header : Header
  pub content_length : ℤ
  pub remote_addr : Text

-- The message HttpRequest; a Header of it is a key with its values.
pub record HttpRequest : Type 0 where
  pub method : Text
  pub scheme : Text
  pub host : Text
  pub path : Text
  pub raw_query : Text
  pub headers : List (Text × List Text)
  pub body : Text
  pub content_length : ℤ
  pub remote_addr : Text
  pub request_id : Text
  pub principal : Text

unfoldable pub stdlib_to_http_request : Request → Text → Text → Text → HttpRequest
stdlib_to_http_request r body request_id principal = record {
  method = r.method;
  scheme = r.scheme;
  host = r.host;
  path = r.path;
  raw_query = r.raw_query;
  headers = r.header;
  body = body;
  content_length = r.content_length;
  remote_addr = r.remote_addr;
  request_id = request_id;
  principal = principal;
}

-- The loop of HttpRequestToStdlib over the headers.
unfoldable pub add_headers : Header → List (Text × List Text) → Header
add_headers header [] = header
add_headers header ((key, values) ∷ headers) = add_headers (put key values header) headers

-- The request and its body.
unfoldable pub http_request_to_stdlib : HttpRequest → Request × Text
http_request_to_stdlib req = (
  record {
    method = req.method;
    scheme = req.scheme;
    url_host = req.host;
    path = req.path;
    raw_query = req.raw_query;
    host = req.host;
    header = add_headers [] req.headers;
    content_length = req.content_length;
    remote_addr = req.remote_addr;
  },
  req.body,
)

abbrev pub sensitive_headers : List Text
sensitive_headers =
    codes "X-Api-Key" ∷ codes "Authorization" ∷ codes "Cookie" ∷ codes "Proxy-Authorization" ∷ []

unfoldable pub is_sensitive : Text → Bool
is_sensitive key = any (λ s. text_eq s (canonical_header_key key)) sensitive_headers

abbrev pub redacted : List Text
redacted = codes "REDACTED" ∷ []

-- The loop over pbReq.Headers.
unfoldable pub redact : List (Text × List Text) → List (Text × List Text)
redact [] = []
redact ((key, values) ∷ headers) =
    (key, (if is_sensitive key then redacted else values)) ∷ redact headers

-- What the authn middleware and the body buffer left in the context.
pub record Context : Type 0 where
  pub roles : List Text
  pub body : Text
  pub request_id : Text
  pub principal : Text

unfoldable pub plugin_request : Context → Request → HttpRequest
unfolding stdlib_to_http_request
plugin_request ctx r =
    let req = stdlib_to_http_request r ctx.body ctx.request_id ctx.principal in
    record req { headers = redact req.headers }

pub data Reply : Type 0 where
  forbidden : Text → Reply
  next : Request → Reply

-- Middleware: the result that is written for the audit, and the answer.
unfoldable pub serve_http : (List Text → HttpRequest → Result) → Context → Request → Result × Reply
serve_http authorize ctx r =
    if is_empty ctx.roles
    then (no_roles, forbidden (codes "Forbidden: no roles assigned"))
    else (let result = authorize ctx.roles (plugin_request ctx r) in
        (result, (if is_allow result.decision then next r else forbidden (codes "Forbidden"))))
