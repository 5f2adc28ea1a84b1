-- ===== src/Pipeline/Trail.antt =====
-- What the audit log gets of a request.
use pdag.Common.{
  ℕ, ◌≡◌, ◌⊎◌, inl, inr, refl, sym, ap, ◌∙◌, Bool, true, false, Text, List, [], ◌∷◌, ◌++◌, subst,
  length, ltb, Option, Bool-cases, not, ◌&&◌, if-true, if-false,
}
use pdag.ClientIp.{Net}
use pdag.Authn.{Crypto, Secrets, Found}
use pdag.Authz as Authz
use pdag.Manager.{Result}
use pdag.Audit.{Encoding}
use pdag.AuditLog.{Entry, Logger, publish, reserve, commit, enqueue, drop_full}
use pdag.AuditLog.Reservation.{Permits, reserve-room}
use pdag.Context.{Context, background, with_status_code_ptr, with_body_size_ptr, with_request_id}
use pdag.Pipeline.{
  Request, World, Handler, chain, count_request, metrics, Options, Moment, publish_entry,
  commit_entry, build_entry, audit_context, audit_world, audit, inner_handler, proxy_handler, serve,
}
use pdag.Pipeline.Log.{inner_handler-log}

module _ (net : Net) (crypto : Crypto) (ip_string : net.Ip → Text) (encoding : Encoding)
    (opts : Options) (trusted : List net.IpNet) (secrets : Secrets) (get_by_id : Text → Found)
    (max_bytes : ℕ) (authorize : List Text → Authz.HttpRequest → Result)
    (backend : Request → Option ℕ) where
  abbrev inner : ℕ → Handler
  inner now =
      inner_handler net crypto ip_string encoding opts trusted secrets get_by_id max_bytes authorize
        backend now

  unlogged : (now : ℕ) (r : Request) (ctx : Context) (w : World) → (inner now r ctx w).log ≡ w.log
  unlogged =
      inner_handler-log net crypto ip_string encoding opts trusted secrets get_by_id max_bytes
        authorize backend

  -- One entry more, which names the request but nobody.
  pub record Anonymous (m : Moment) (before after : Logger) : Type 0 where
    pub entry : Entry
    pub accepted : after.accepted ≡ before.accepted ++ entry ∷ []
    pub request_id : entry.request_id ≡ m.uuid
    pub principal : entry.principal ≡ []
    pub key_id : entry.key_id ≡ []

  pub Logged : Moment → Logger → Logger → Type 0
  Logged m before after = (after.accepted ≡ before.accepted) ⊎ Anonymous m before after

  publish_entry-Logged :
      (m : Moment) (e : Entry) (w : World)
      → e.request_id ≡ m.uuid
      → e.principal ≡ []
      → e.key_id ≡ []
      → Logged m w.log (publish_entry m.gives_up e w).log
  unfolding publish enqueue drop_full Logged
  publish_entry-Logged m e w i p k = elim (Bool-cases w.log.closed) [
    | inl c ↦ rw (c, publish) (inl refl)
    | inr c ↦ elim (Bool-cases (not m.gives_up && ltb (length w.log.ch) w.log.size)) [
      | inl f ↦
          rw (c, f, publish)
            (inr (record { entry = e; accepted = refl; request_id = i; principal = p; key_id = k }))
      | inr f ↦ rw (c, f, publish) (inl refl)
    ]
  ]

  commit_entry-Logged :
      (m : Moment) (e : Entry) (w : World)
      → e.request_id ≡ m.uuid
      → e.principal ≡ []
      → e.key_id ≡ []
      → Logged m w.log (commit_entry e w).log
  unfolding commit enqueue Logged
  commit_entry-Logged m e w i p k = elim (Bool-cases (ltb (length w.log.ch) w.log.size)) [
    | inl f ↦
        rw (f, commit_entry, commit)
          (inr (record { entry = e; accepted = refl; request_id = i; principal = p; key_id = k }))
    | inr f ↦ rw (f, commit_entry, commit) (inl refl)
  ]

  -- A context that names the request and nobody.
  abbrev Unnamed : Moment → Context → Type 0
  Unnamed m ctx = (ctx.request_id ≡ m.uuid) × (ctx.principal ≡ []) × (ctx.key_id ≡ [])

  auditing-Unnamed :
      (m : Moment) (ctx : Context)
      → Unnamed m ctx
      → Unnamed m (audit_context net crypto ip_string encoding opts ctx)
  auditing-Unnamed m ctx u = elim (Bool-cases opts.log_body) [ inl e ↦ rw e u | inr e ↦ rw e u ]

  reserve-accepted : (l : Logger) (gives_up : Bool) → (reserve l gives_up).0.accepted ≡ l.accepted
  unfolding reserve
  reserve-accepted l gives_up = elim (Bool-cases l.closed) [
    | inl c ↦ rw (c, reserve) refl
    | inr c ↦ elim (Bool-cases (not gives_up && ltb l.sem l.size)) [
      | inl f ↦ rw (c, f, reserve) refl
      | inr f ↦ rw (c, f, reserve) refl
    ]
  ]

  -- Entries are counted from the log that the request met.
  since :
      (m : Moment) (before between after : Logger)
      → between.accepted ≡ before.accepted
      → Logged m between after
      → Logged m before after
  unfolding Logged
  since m before between after e (inl f) = inl (f ∙ e)
  since m before between after e (inr a) = inr (record {
    entry = a.entry;
    accepted = a.accepted ∙ ap (λ es. es ++ a.entry ∷ []) e;
    request_id = a.request_id;
    principal = a.principal;
    key_id = a.key_id;
  })

  audit-Logged :
      (m : Moment) (r : Request) (ctx : Context) (w : World)
      → Unnamed m ctx
      → Logged m w.log
          (audit net crypto ip_string encoding opts trusted m (inner m.now) r ctx w).log
  unfolding audit build_entry Logged
  audit-Logged m r ctx w u =
      let a = audit_context net crypto ip_string encoding opts ctx in
      let s = audit_world net crypto ip_string encoding w in
      let held = record s { log = (reserve w.log m.gives_up).0 } in
      let v = auditing-Unnamed m ctx u in
      let reserved = reserve-accepted w.log m.gives_up in
      let closed_end = inner m.now r a held in
      let open_end = inner m.now r a s in
      let goal : World → Type 0 = λ x. Logged m w.log x.log in
      elim (Bool-cases opts.fail_closed) [
        | inl e ↦
            subst goal (sym (if-true opts.fail_closed _ _ e))
              (elim (Bool-cases (reserve w.log m.gives_up).1) [
                | inl p ↦ subst goal (sym (if-true (reserve w.log m.gives_up).1 _ _ p)) (
                    since m w.log closed_end.log _
                      (ap (λ l. l.accepted) (unlogged m.now r a held) ∙ reserved)
                      (commit_entry-Logged m
                        (build_entry net crypto ip_string encoding opts trusted m r a closed_end)
                        closed_end v.0 v.1 v.2))
                | inr p ↦
                    subst goal (sym (if-false (reserve w.log m.gives_up).1 _ _ p)) (inl reserved)
              ])
        | inr e ↦
            subst goal (sym (if-false opts.fail_closed _ _ e))
              (elim (Bool-cases open_end.panicked) [
                | inl p ↦
                    subst goal (sym (if-true open_end.panicked _ _ p))
                      (inl (ap (λ l. l.accepted) (unlogged m.now r a s)))
                | inr p ↦ subst goal (sym (if-false open_end.panicked _ _ p)) (
                    since m w.log open_end.log _ (ap (λ l. l.accepted) (unlogged m.now r a s)) (
                      publish_entry-Logged m
                        (build_entry net crypto ip_string encoding opts trusted m r a open_end)
                        open_end v.0 v.1 v.2))
              ])
      ]

  count_request-keeps :
      (r : Request) (w : World)
      → ((count_request r w).log ≡ w.log)
        × ((count_request r w).panicked ≡ w.panicked)
        × ((count_request r w).waits ≡ w.waits)
        × ((count_request r w).forwarded ≡ w.forwarded)
  count_request-keeps r w = elim (Bool-cases w.panicked) [
    | inl e ↦ rw (e, count_request) (refl, refl, refl, refl)
    | inr e ↦ rw (e, count_request) (refl, refl, refl, refl)
  ]

  -- What comes to the audit middleware of a request.
  abbrev outer : Moment → Context
  outer m = with_status_code_ptr (with_body_size_ptr (with_request_id background m.uuid))

  abbrev fresh : World → World
  fresh w = record w { panicked = false; status_code = 200; body_size = 0 }

  abbrev audited : Moment → Request → World → World
  audited m r w =
      audit net crypto ip_string encoding opts trusted m (inner m.now) r (outer m) (fresh w)

  abbrev served : Moment → Request → World → World
  served m r w =
      serve net crypto ip_string encoding opts trusted secrets get_by_id max_bytes authorize backend
        m r w

  -- A request leaves at most one entry in the audit log, and the entry has the ID of the request, but neither a
  -- principal nor a key, whoever made the request.
  pub entries_name_nobody :
      (m : Moment) (r : Request) (w : World) → Logged m w.log (served m r w).log
  unfolding serve proxy_handler chain metrics inner_handler
  entries_name_nobody m r w =
      subst (λ l. Logged m w.log l) (sym (count_request-keeps r (audited m r w)).0)
        (audit-Logged m r (outer m) (fresh w) (refl, refl, refl))

  -- In fail-open mode a request whose handler panics leaves no entry.
  pub panic_unlogged :
      (m : Moment) (r : Request) (w : World)
      → opts.fail_closed ≡ false
      → ((served m r w).panicked ≡ false) ⊎ ((served m r w).log ≡ w.log)
  unfolding serve proxy_handler chain metrics inner_handler audit
  panic_unlogged m r w e =
      let keeps = count_request-keeps r (audited m r w) in
      let a = audit_context net crypto ip_string encoding opts (outer m) in
      let s = audit_world net crypto ip_string encoding (fresh w) in
      let end = inner m.now r a s in
      let unreserved = if-false opts.fail_closed _ _ e in
      elim (Bool-cases end.panicked) [
        | inl p ↦ inr (
            keeps.0
            ∙ ap (λ (x : World). x.log) unreserved
            ∙ ap (λ (x : World). x.log) (if-true end.panicked _ _ p)
            ∙ unlogged m.now r a s)
        | inr p ↦ inl (
            keeps.1
            ∙ ap (λ (x : World). x.panicked) unreserved
            ∙ ap (λ (x : World). x.panicked) (if-false end.panicked _ _ p)
            ∙ p)
      ]

  commit_entry-accepted :
      (e : Entry) (w : World)
      → ltb (length w.log.ch) w.log.size ≡ true
      → (commit_entry e w).log.accepted ≡ w.log.accepted ++ e ∷ []
  unfolding commit enqueue
  commit_entry-accepted e w f = rw (f, commit_entry, commit) refl

  -- One entry more, which is about this request.
  pub record Entered (m : Moment) (r : Request) (before after : Logger) : Type 0 where
    pub entry : Entry
    pub accepted : after.accepted ≡ before.accepted ++ entry ∷ []
    pub timestamp : entry.timestamp ≡ m.timestamp
    pub request_id : entry.request_id ≡ m.uuid
    pub method : entry.method ≡ r.http.method
    pub path : entry.path ≡ r.http.path
    pub query : entry.query ≡ r.http.raw_query

  -- What a request leaves in fail-closed mode: nothing forwarded, or its entry.
  abbrev pub Accounted : Moment → Request → World → World → Type 0
  Accounted m r w w' = (w'.forwarded ≡ w.forwarded) ⊎ Entered m r w.log w'.log

  audited-Accounted :
      (m : Moment) (r : Request) (w : World)
      → opts.fail_closed ≡ true
      → Permits w.log
      → Accounted m r w (audited m r w)
  unfolding audit build_entry
  audited-Accounted m r w e h =
      let a = audit_context net crypto ip_string encoding opts (outer m) in
      let s = audit_world net crypto ip_string encoding (fresh w) in
      let held = record s { log = (reserve w.log m.gives_up).0 } in
      let closed_end = inner m.now r a held in
      let entry = build_entry net crypto ip_string encoding opts trusted m r a closed_end in
      let goal : World → Type 0 = λ x. Accounted m r w x in
      let same = unlogged m.now r a held in
      let before = ap (λ l. l.accepted) same ∙ reserve-accepted w.log m.gives_up in
      subst goal (sym (if-true opts.fail_closed _ _ e))
        (elim (Bool-cases (reserve w.log m.gives_up).1) [
          | inl p ↦
              (let room =
                  ap (λ (l : Logger). ltb (length l.ch) l.size) same
                  ∙ reserve-room w.log m.gives_up h p in
                subst goal (sym (if-true (reserve w.log m.gives_up).1 _ _ p)) (
                  inr (record {
                    entry = entry;
                    accepted =
                        commit_entry-accepted entry closed_end room
                        ∙ ap (λ es. es ++ entry ∷ []) before;
                    timestamp = refl;
                    request_id = (auditing-Unnamed m (outer m) (refl, refl, refl)).0;
                    method = refl;
                    path = refl;
                    query = refl;
                  })))
          | inr p ↦ subst goal (sym (if-false (reserve w.log m.gives_up).1 _ _ p)) (inl refl)
        ])

  -- In fail-closed mode, with a log whose permits are accounted for, a request that the backend gets, even if its
  -- handler panics, has an entry in the audit log, with its ID, method, path and query.
  pub forwarded_is_logged :
      (m : Moment) (r : Request) (w : World)
      → opts.fail_closed ≡ true
      → Permits w.log
      → Accounted m r w (served m r w)
  unfolding serve proxy_handler chain metrics inner_handler
  forwarded_is_logged m r w e h =
      let keeps = count_request-keeps r (audited m r w) in
      elim (audited-Accounted m r w e h) [
        | inl f ↦ inl (keeps.3 ∙ f)
        | inr x ↦ inr (record {
          entry = x.entry;
          accepted = ap (λ l. l.accepted) keeps.0 ∙ x.accepted;
          timestamp = x.timestamp;
          request_id = x.request_id;
          method = x.method;
          path = x.path;
          query = x.query;
        })
      ]
