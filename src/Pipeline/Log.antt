-- ===== src/Pipeline/Log.antt =====
-- Behind the audit middleware nothing touches the audit log.
use pdag.Common.{
  ℕ, ◌≡◌, inl, inr, refl, ◌∙◌, Text, List, Option, none, some, Bool-cases, Option-cases,
}
use pdag.ClientIp.{Net}
use pdag.Authn.{Crypto, Secrets, Found, Identity}
use pdag.Authn as Authn
use pdag.RateLimit.{Limiter, Passage, too_many_requests}
use pdag.RateLimit as RateLimit
use pdag.BodyBuffer.{Body}
use pdag.BodyBuffer as BodyBuffer
use pdag.Authz as Authz
use pdag.Manager.{Result}
use pdag.Audit.{Encoding}
use pdag.Context.{Context}
use pdag.Pipeline.{
  Request, World, Handler, chain, rate_limit, with_body, bytes_of, write_body, buffer_body,
  write_result, authz_context, authorize_request, proxy, Options, peer_of, with_identity,
  authenticate_request, inner_handler,
}
use pdag.Pipeline.Layers.{authn_cases, passage_cases, buffer_cases, authz_cases}

proxy-log :
    (backend : Request → Option ℕ) (r : Request) (ctx : Context) (w : World)
    → (proxy backend r ctx w).log ≡ w.log
unfolding proxy
proxy-log backend r ctx w = elim (Option-cases (backend r)) [
  | inl e ↦ rw (e, proxy) refl
  | inr (status, e) ↦ rw (e, proxy) refl
]

write_body-log :
    (ctx : Context) (body : Option Text) (w : World) → (write_body ctx body w).log ≡ w.log
write_body-log ctx none w = refl
write_body-log ctx (some body) w = refl

write_result-log : (ctx : Context) (res : Result) (w : World) → (write_result ctx res w).log ≡ w.log
write_result-log ctx res w = elim (Bool-cases ctx.authz_result_ptr) [
  | inl e ↦ rw e refl
  | inr e ↦ rw e refl
]

module _ (authorize : List Text → Authz.HttpRequest → Result) (backend : Request → Option ℕ) where
  authorize_request-log :
      (r : Request) (ctx : Context) (w : World)
      → (authorize_request authorize (proxy backend) r ctx w).log ≡ w.log
  unfolding authorize_request
  authorize_request-log r ctx w =
      elim (authz_cases (Authz.serve_http authorize (authz_context ctx) r.http).1) [
        | inl (message, e) ↦ rw (e, authorize_request) (write_result-log ctx _ w)
        | inr (http, e) ↦
            rw (e, authorize_request)
              (proxy-log backend (record r { http = http }) ctx _ ∙ write_result-log ctx _ w)
      ]

  buffer_body-log :
      (max_bytes : ℕ) (r : Request) (ctx : Context) (w : World)
      → (buffer_body max_bytes (authorize_request authorize (proxy backend)) r ctx w).log ≡ w.log
  unfolding buffer_body
  buffer_body-log max_bytes r ctx w =
      elim (buffer_cases (
        BodyBuffer.body_buffer max_bytes
          (record { body = r.body; content_length = r.http.content_length }))) [
            | inl (code, message, e) ↦ rw (e, buffer_body) refl
            | inr (body, b, e) ↦
                rw (e, buffer_body)
                  (authorize_request-log (with_body r b) (record ctx { body_bytes = bytes_of body })
                      (write_body ctx body w)
                    ∙ write_body-log ctx body w)
          ]

  rate_limit-log :
      (now max_bytes : ℕ) (r : Request) (ctx : Context) (w : World)
      → (rate_limit now
          (buffer_body max_bytes (authorize_request authorize (proxy backend)))
          r
          ctx
          w).log
        ≡ w.log
  unfolding rate_limit
  rate_limit-log now max_bytes r ctx w =
      elim (passage_cases (RateLimit.middleware w.limiter ctx.principal now).1) [
        | inl e ↦ rw (e, rate_limit) refl
        | inr e ↦
            rw (e, rate_limit)
              (buffer_body-log max_bytes r ctx
                (record w { limiter = (RateLimit.middleware w.limiter ctx.principal now).0 }))
      ]

module _ (net : Net) (crypto : Crypto) (ip_string : net.Ip → Text) (encoding : Encoding)
    (opts : Options) (trusted : List net.IpNet) (secrets : Secrets) (get_by_id : Text → Found)
    (max_bytes : ℕ) (authorize : List Text → Authz.HttpRequest → Result)
    (backend : Request → Option ℕ) where
  abbrev inner : ℕ → Handler
  inner now =
      inner_handler net crypto ip_string encoding opts trusted secrets get_by_id max_bytes authorize
        backend now

  -- Behind the audit middleware nothing touches the log.
  pub inner_handler-log :
      (now : ℕ) (r : Request) (ctx : Context) (w : World) → (inner now r ctx w).log ≡ w.log
  unfolding inner_handler chain authenticate_request
  inner_handler-log now r ctx w =
      elim (authn_cases
        (Authn.serve_http crypto net secrets get_by_id trusted
          (peer_of net crypto ip_string encoding r) now).reply) [
            | inl (code, message, e) ↦ rw (e, authenticate_request) refl
            | inr (who, e) ↦
                rw (e, authenticate_request)
                  (rate_limit-log authorize backend now max_bytes r
                    (with_identity net crypto ip_string encoding ctx who) w)
          ]
