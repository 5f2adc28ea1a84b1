-- ===== src/Pipeline/Gate.antt =====
-- What has to hold of a request before the backend gets it.
use pdag.Common.{
  ℕ, ◌≡◌, ◌⊎◌, inl, inr, refl, sym, ap, ◌∙◌, true, false, Text, List, ◌∷◌, Option, Bool-cases,
  Option-cases,
}
use pdag.ClientIp.{Net}
use pdag.Authn.{Crypto, Secrets, Found, Identity}
use pdag.Authn as Authn
use pdag.RateLimit.{Limiter, Passage, too_many_requests}
use pdag.RateLimit as RateLimit
use pdag.Authz as Authz
use pdag.Manager.{Result}
use pdag.Audit.{Encoding}
use pdag.AuditLog.{Entry, reserve, commit}
use pdag.Context.{Context, background, with_status_code_ptr, with_body_size_ptr, with_request_id}
use pdag.Pipeline.{
  Request, World, Handler, chain, count_request, metrics, sent_body, Options, Moment, commit_entry,
  peer_of, with_identity, authenticate_request, audit_context, audit_world, audit, inner_handler,
  proxy_handler, serve,
}
use pdag.Pipeline.Layers.{authn_cases, Granted, rate_limit-gate}

module _ (net : Net) (crypto : Crypto) (ip_string : net.Ip → Text) (encoding : Encoding)
    (opts : Options) (trusted : List net.IpNet) (secrets : Secrets) (get_by_id : Text → Found)
    (max_bytes : ℕ) (authorize : List Text → Authz.HttpRequest → Result)
    (backend : Request → Option ℕ) where
  -- The key is good for an identity, under which the request gets through the rest.
  pub record Authenticated (now : ℕ) (ctx : Context) (r : Request) (w w' : World) : Type 0 where
    pub who : Identity
    pub authenticated :
        (Authn.serve_http crypto net secrets get_by_id trusted
          (peer_of net crypto ip_string encoding r)
          now).reply
        ≡ Authn.next who
    pub granted :
        Granted authorize backend now max_bytes
          (with_identity net crypto ip_string encoding ctx who)
          r
          w
          w'

  abbrev inner : ℕ → Handler
  inner now =
      inner_handler net crypto ip_string encoding opts trusted secrets get_by_id max_bytes authorize
        backend now

  inner_handler-gate :
      (now : ℕ) (r : Request) (ctx : Context) (w : World)
      → ((inner now r ctx w).forwarded ≡ w.forwarded)
        ⊎ Authenticated now ctx r w (inner now r ctx w)
  unfolding inner_handler chain authenticate_request
  inner_handler-gate now r ctx w =
      elim (authn_cases
        (Authn.serve_http crypto net secrets get_by_id trusted
          (peer_of net crypto ip_string encoding r) now).reply) [
            | inl (code, message, e) ↦ inl (rw (e, authenticate_request) refl)
            | inr (who, e) ↦
                elim (rate_limit-gate authorize backend now max_bytes r
                  (with_identity net crypto ip_string encoding ctx who) w) [
                    | inl f ↦ inl (rw (e, authenticate_request) f)
                    | inr g ↦ inr (record {
                      who = who;
                      authenticated = e;
                      granted = rw (e, authenticate_request) g;
                    })
                  ]
          ]

  commit_entry-forwarded : (e : Entry) (w : World) → (commit_entry e w).forwarded ≡ w.forwarded
  commit_entry-forwarded e w = elim (Option-cases (commit w.log e)) [
    | inl n ↦ rw (n, commit_entry) refl
    | inr (log, n) ↦ rw (n, commit_entry) refl
  ]

  count_request-forwarded : (r : Request) (w : World) → (count_request r w).forwarded ≡ w.forwarded
  count_request-forwarded r w = elim (Bool-cases w.panicked) [
    | inl e ↦ rw (e, count_request) refl
    | inr e ↦ rw (e, count_request) refl
  ]

  -- The conditions depend on no more of the worlds than the limiter before and the requests forwarded.
  moved :
      (now : ℕ) (ctx : Context) (r : Request) (v w v' w' : World)
      → v.limiter ≡ w.limiter
      → v.forwarded ≡ w.forwarded
      → w'.forwarded ≡ v'.forwarded
      → Authenticated now ctx r v v'
      → Authenticated now ctx r w w'
  moved now ctx r v w v' w' l f g a = record {
    who = a.who;
    authenticated = a.authenticated;
    granted = record {
      granted =
          ap (λ lim. (RateLimit.middleware lim a.who.principal now).1) (sym l) ∙ a.granted.granted;
      buffered = record {
        body = a.granted.buffered.body;
        buffered = a.granted.buffered.buffered;
        within = a.granted.buffered.within;
        authorized = record {
          http = a.granted.buffered.authorized.http;
          allowed = a.granted.buffered.authorized.allowed;
          forwarded =
              g
              ∙ a.granted.buffered.authorized.forwarded
              ∙ ap
                  (λ fs.
                    (a.granted.buffered.authorized.http, sent_body a.granted.buffered.buffered.body)
                    ∷ fs)
                  f;
        };
      };
    };
  }

  -- In fail-closed mode there is room in the audit log.
  pub record Passed (m : Moment) (ctx : Context) (r : Request) (w w' : World) : Type 0 where
    pub reserved : (opts.fail_closed ≡ false) ⊎ ((reserve w.log m.gives_up).1 ≡ true)
    pub authenticated : Authenticated m.now ctx r w w'

  audited : Moment → Handler → Handler
  audited m next = audit net crypto ip_string encoding opts trusted m next

  abbrev starting : World → World
  starting w = audit_world net crypto ip_string encoding w

  abbrev auditing : Context → Context
  auditing ctx = audit_context net crypto ip_string encoding opts ctx

  -- In fail-open mode the requests forwarded are those that the next handler forwards.
  audit-open :
      (m : Moment) (next : Handler) (r : Request) (ctx : Context) (w : World)
      → opts.fail_closed ≡ false
      → (audited m next r ctx w).forwarded ≡ (next r (auditing ctx) (starting w)).forwarded
  unfolding audited audit
  audit-open m next r ctx w e = elim (Bool-cases (next r (auditing ctx) (starting w)).panicked) [
    | inl p ↦ rw (e, p, audit) refl
    | inr p ↦ rw (e, p, audit) refl
  ]

  -- In fail-closed mode it is so with a permit, and without one nothing is forwarded.
  audit-closed :
      (m : Moment) (next : Handler) (r : Request) (ctx : Context) (w : World)
      → opts.fail_closed ≡ true
      → ((audited m next r ctx w).forwarded ≡ w.forwarded)
        ⊎ (((reserve w.log m.gives_up).1 ≡ true)
            × ((audited m next r ctx w).forwarded
                ≡ (next r
                    (auditing ctx)
                    (record (starting w) { log = (reserve w.log m.gives_up).0 })).forwarded))
  unfolding audited audit
  audit-closed m next r ctx w e = elim (Bool-cases (reserve w.log m.gives_up).1) [
    | inl p ↦ inr (p, rw (e, p, audit) (commit_entry-forwarded _ _))
    | inr p ↦ inl (rw (e, p, audit) refl)
  ]

  audit-gate :
      (m : Moment) (r : Request) (ctx : Context) (w : World)
      → ((audited m (inner m.now) r ctx w).forwarded ≡ w.forwarded)
        ⊎ Passed m (auditing ctx) r w (audited m (inner m.now) r ctx w)
  audit-gate m r ctx w = elim (Bool-cases opts.fail_closed) [
    | inr e ↦
        (let same = audit-open m (inner m.now) r ctx w e in
          elim (inner_handler-gate m.now r (auditing ctx) (starting w)) [
            | inl f ↦ inl (same ∙ f)
            | inr a ↦ inr (record {
              reserved = inl e;
              authenticated = moved m.now (auditing ctx) r (starting w) w _ _ refl refl same a;
            })
          ])
    | inl e ↦ elim (audit-closed m (inner m.now) r ctx w e) [
      | inl f ↦ inl f
      | inr (ok, same) ↦
          let held = record (starting w) { log = (reserve w.log m.gives_up).0 } in
          elim (inner_handler-gate m.now r (auditing ctx) held) [
            | inl f ↦ inl (same ∙ f)
            | inr a ↦ inr (record {
              reserved = inr ok;
              authenticated = moved m.now (auditing ctx) r held w _ _ refl refl same a;
            })
          ]
    ]
  ]

  -- The context in which the middlewares behind the audit run.
  abbrev pub inner_context : Moment → Context
  inner_context m =
      auditing (with_status_code_ptr (with_body_size_ptr (with_request_id background m.uuid)))

  -- The backend gets a request at most once, and only if its key is good for an identity, the rate limiter
  -- grants the principal a token, the body is within the limit, the authorizer lets the request go on with the
  -- roles of the identity, and, in fail-closed mode, the audit log has room. It gets the body that was read.
  pub serve_gate :
      (m : Moment) (r : Request) (w : World)
      → ((serve net crypto ip_string encoding opts trusted secrets get_by_id max_bytes authorize
            backend m r w).forwarded
          ≡ w.forwarded)
        ⊎ Passed m (inner_context m) r w (
            serve net crypto ip_string encoding opts trusted secrets get_by_id max_bytes authorize
              backend m r w)
  unfolding serve proxy_handler chain metrics audited inner_handler
  serve_gate m r w =
      let ctx = with_status_code_ptr (with_body_size_ptr (with_request_id background m.uuid)) in
      let start = record w { panicked = false; status_code = 200; body_size = 0 } in
      let counted = count_request-forwarded r (audited m (inner m.now) r ctx start) in
      elim (audit-gate m r ctx start) [
        | inl f ↦ inl (counted ∙ f)
        | inr a ↦ inr (record {
          reserved = a.reserved;
          authenticated =
              moved m.now (auditing ctx) r start w _ _ refl refl counted a.authenticated;
        })
      ]
