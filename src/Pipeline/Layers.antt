-- ===== src/Pipeline/Layers.antt =====
-- Which requests each middleware behind the authentication lets through.
use pdag.Common.{
  ℕ, ◌≡◌, ◌⊎◌, inl, inr, refl, ap, ◌∙◌, Text, List, ◌∷◌, Option, none, some, Bool-cases,
  Option-cases,
}
use pdag.Authn.{Crypto, Secrets, Found, Identity}
use pdag.Authn as Authn
use pdag.RateLimit.{Limiter, Passage, too_many_requests}
use pdag.RateLimit as RateLimit
use pdag.BodyBuffer.{Body}
use pdag.BodyBuffer as BodyBuffer
use pdag.Authz as Authz
use pdag.Manager.{Result}
use pdag.Context.{Context}
use pdag.Pipeline.{
  Request, World, rate_limit, with_body, sent_body, bytes_of, write_body, buffer_body, write_result,
  authz_context, authorize_request, proxy,
}

pub authn_cases :
    (reply : Authn.Reply)
    → ((code : ℕ) × (message : Text) × (reply ≡ Authn.error code message))
      ⊎ ((who : Identity) × (reply ≡ Authn.next who))
authn_cases (Authn.error code message) = inl (code, message, refl)
authn_cases (Authn.next who) = inr (who, refl)

pub passage_cases : (p : Passage) → (p ≡ too_many_requests) ⊎ (p ≡ RateLimit.next)
passage_cases too_many_requests = inl refl
passage_cases RateLimit.next = inr refl

pub buffer_cases :
    (reply : BodyBuffer.Reply)
    → ((code : ℕ) × (message : Text) × (reply ≡ BodyBuffer.error code message))
      ⊎ ((body : Option Text) × (b : BodyBuffer.Request) × (reply ≡ BodyBuffer.next body b))
buffer_cases (BodyBuffer.error code message) = inl (code, message, refl)
buffer_cases (BodyBuffer.next body b) = inr (body, b, refl)

pub authz_cases :
    (reply : Authz.Reply)
    → ((message : Text) × (reply ≡ Authz.forbidden message))
      ⊎ ((http : Authz.Request) × (reply ≡ Authz.next http))
authz_cases (Authz.forbidden message) = inl (message, refl)
authz_cases (Authz.next http) = inr (http, refl)

write_body-forwarded :
    (ctx : Context) (body : Option Text) (w : World)
    → (write_body ctx body w).forwarded ≡ w.forwarded
write_body-forwarded ctx none w = refl
write_body-forwarded ctx (some body) w = refl

write_result-forwarded :
    (ctx : Context) (res : Result) (w : World) → (write_result ctx res w).forwarded ≡ w.forwarded
write_result-forwarded ctx res w = elim (Bool-cases ctx.authz_result_ptr) [
  | inl e ↦ rw e refl
  | inr e ↦ rw e refl
]

proxy-forwarded :
    (backend : Request → Option ℕ) (r : Request) (ctx : Context) (w : World)
    → (proxy backend r ctx w).forwarded ≡ (r.http, sent_body r.body) ∷ w.forwarded
unfolding proxy
proxy-forwarded backend r ctx w = elim (Option-cases (backend r)) [
  | inl e ↦ rw (e, proxy) refl
  | inr (status, e) ↦ rw (e, proxy) refl
]

module _ (authorize : List Text → Authz.HttpRequest → Result) (backend : Request → Option ℕ) where
  -- The authorizer lets the request go on.
  pub record Authorized (ctx : Context) (r : Request) (w w' : World) : Type 0 where
    pub http : Authz.Request
    pub allowed : (Authz.serve_http authorize (authz_context ctx) r.http).1 ≡ Authz.next http
    pub forwarded : w'.forwarded ≡ (http, sent_body r.body) ∷ w.forwarded

  authorize_request-gate :
      (r : Request) (ctx : Context) (w : World)
      → ((authorize_request authorize (proxy backend) r ctx w).forwarded ≡ w.forwarded)
        ⊎ Authorized ctx r w (authorize_request authorize (proxy backend) r ctx w)
  unfolding authorize_request
  authorize_request-gate r ctx w =
      elim (authz_cases (Authz.serve_http authorize (authz_context ctx) r.http).1) [
        | inl (message, e) ↦ rw (e, authorize_request) (inl (write_result-forwarded ctx _ w))
        | inr (http, e) ↦ inr (record {
          http = http;
          allowed = e;
          forwarded =
              rw (e, authorize_request)
                (proxy-forwarded backend (record r { http = http }) ctx _
                  ∙ ap (λ f. (http, sent_body r.body) ∷ f) (write_result-forwarded ctx _ w));
        })
      ]

  -- The body is within the limit, and the authorizer lets the request go on.
  pub record Buffered (max_bytes : ℕ) (ctx : Context) (r : Request) (w w' : World) : Type 0 where
    pub body : Option Text
    pub buffered : BodyBuffer.Request
    pub within :
        BodyBuffer.body_buffer max_bytes
          (record { body = r.body; content_length = r.http.content_length })
        ≡ BodyBuffer.next body buffered
    pub authorized :
        Authorized (record ctx { body_bytes = bytes_of body }) (with_body r buffered) w w'

  from_world :
      (ctx : Context) (r : Request) (w v w' : World)
      → v.forwarded ≡ w.forwarded
      → Authorized ctx r v w'
      → Authorized ctx r w w'
  from_world ctx r w v w' e a = record {
    http = a.http;
    allowed = a.allowed;
    forwarded = a.forwarded ∙ ap (λ f. (a.http, sent_body r.body) ∷ f) e;
  }

  buffer_body-gate :
      (max_bytes : ℕ) (r : Request) (ctx : Context) (w : World)
      → ((buffer_body max_bytes (authorize_request authorize (proxy backend)) r ctx w).forwarded
          ≡ w.forwarded)
        ⊎ Buffered max_bytes ctx r w
            (buffer_body max_bytes (authorize_request authorize (proxy backend)) r ctx w)
  unfolding buffer_body
  buffer_body-gate max_bytes r ctx w =
      elim (buffer_cases (
        BodyBuffer.body_buffer max_bytes
          (record { body = r.body; content_length = r.http.content_length }))) [
            | inl (code, message, e) ↦ rw (e, buffer_body) (inl refl)
            | inr (body, b, e) ↦
                let same = write_body-forwarded ctx body w in
                let inside = record ctx { body_bytes = bytes_of body } in
                elim (authorize_request-gate (with_body r b) inside (write_body ctx body w)) [
                  | inl f ↦ inl (rw (e, buffer_body) (f ∙ same))
                  | inr a ↦ inr (record {
                    body = body;
                    buffered = b;
                    within = e;
                    authorized =
                        rw (e, buffer_body)
                          (from_world inside (with_body r b) w (write_body ctx body w) _ same a);
                  })
                ]
          ]

  -- The limiter grants the principal a token, if there is one, and the request gets through the rest.
  pub record Granted (now max_bytes : ℕ) (ctx : Context) (r : Request) (w w' : World) : Type 0 where
    pub granted : (RateLimit.middleware w.limiter ctx.principal now).1 ≡ RateLimit.next
    pub buffered : Buffered max_bytes ctx r w w'

  pub rate_limit-gate :
      (now max_bytes : ℕ) (r : Request) (ctx : Context) (w : World)
      → ((rate_limit now
            (buffer_body max_bytes (authorize_request authorize (proxy backend)))
            r
            ctx
            w).forwarded
          ≡ w.forwarded)
        ⊎ Granted now max_bytes ctx r w (
            rate_limit now
              (buffer_body max_bytes (authorize_request authorize (proxy backend)))
              r
              ctx
              w)
  unfolding rate_limit
  rate_limit-gate now max_bytes r ctx w =
      elim (passage_cases (RateLimit.middleware w.limiter ctx.principal now).1) [
        | inl e ↦ inl (rw (e, rate_limit) refl)
        | inr e ↦
            elim (buffer_body-gate max_bytes r ctx
              (record w { limiter = (RateLimit.middleware w.limiter ctx.principal now).0 })) [
                | inl f ↦ inl (rw (e, rate_limit) f)
                | inr b ↦ inr (record {
                  granted = e;
                  buffered =
                      rw (e, rate_limit)
                        (record {
                          body = b.body;
                          buffered = b.buffered;
                          within = b.within;
                          authorized =
                              from_world _ _ w
                                (record w {
                                  limiter = (RateLimit.middleware w.limiter ctx.principal now).0;
                                })
                                _ refl b.authorized;
                        });
                })
              ]
      ]
