-- ===== src/Config/Accepts.antt =====
-- Which configurations validate accepts.
use pdag.Common.{
  ◌≡◌, ◌≢◌, ◌↔◌, ◌⊎◌, inl, inr, refl, Bool, true, false, ◌&&◌, Text, codes, text_eq, text_eq_iff,
  List, [], ◌∷◌, Option, none, length, is_empty, ltb, is_some, pos, ltb_ℤ, ◌≤ℤ◌, ◌<ℤ◌, All, arith,
  Bool-cases,
}
use pdag.ClientIp.{Net}
use pdag.Authn.{Crypto}
use pdag.Config.{Floats, Environment, Config, RateLimit, Tracing}
use pdag.Config.Checks.{Error, check_rate_limit, check_tracing}
use pdag.Config.Validate.{when, groups, all_checks, validate}
use pdag.Config.Valid.{
  Passes, first_error_iff, Passes-append, Passes-when, reject_iff, positive_iff, not_below_zero_iff,
  ValidBreaker, validate_circuit_breaker_iff, ValidBackend, check_backends_iff, ValidSecret,
  check_secrets_iff, IsCidr, check_proxies_iff, ValidHealth, check_health_iff, ValidPlugin,
  check_plugins_iff, check_address_iff, Apart, check_conflicts_iff, not_empty_iff,
}

nonempty_iff : {A : Type 0} (xs : List A) → (is_empty xs ≡ false) ↔ (xs ≢ [])
nonempty_iff [] = (λ h. absurd (ground arith), λ d. absurd (d refl))
nonempty_iff (x ∷ xs) = (λ h e. cc, λ d. refl)

Passes-all_checks :
    (groups : List (List (Option Error))) → Passes (all_checks groups) ↔ All Passes groups
Passes-all_checks [] = (λ p. tt, λ p. tt)
Passes-all_checks (group ∷ groups) =
    let parts = Passes-append group (all_checks groups) in
    let rest = Passes-all_checks groups in
    (λ p. (let q = parts.0 p in (q.0, rest.0 q.1)), λ p. parts.1 (p.0, rest.1 p.1))

when-or :
    {P : Type 0} (test : Bool) (checks : List (Option Error))
    → (Passes checks ↔ P)
    → Passes (when test checks)
    → (test ≡ false) ⊎ P
when-or test checks e p = elim ((Passes-when test checks).0 p) [
  | inl f ↦ inl f
  | inr q ↦ inr (e.0 q)
]

or-when :
    {P : Type 0} (test : Bool) (checks : List (Option Error))
    → (Passes checks ↔ P)
    → (test ≡ false) ⊎ P
    → Passes (when test checks)
or-when test checks e s =
    (Passes-when test checks).1 (elim s [ inl f ↦ inl f | inr q ↦ inr (e.1 q) ])

module _ (floats : Floats) where
  open floats use {at_most_zero, below_zero, above_one}

  abbrev pub ValidRate : RateLimit floats → Type 0
  ValidRate rl = (at_most_zero rl.rate ≡ false) × (pos 0 <ℤ rl.burst)

  check_rate_limit_iff :
      (rl : RateLimit floats) → Passes (check_rate_limit floats rl) ↔ ValidRate rl
  unfolding check_rate_limit ltb_ℤ
  check_rate_limit_iff rl = ground arith

  abbrev pub ValidTracing : Tracing floats → Type 0
  ValidTracing t =
      (t.endpoint ≢ []) × (below_zero t.sample_rate ≡ false) × (above_one t.sample_rate ≡ false)

  check_tracing_iff : (t : Tracing floats) → Passes (check_tracing floats t) ↔ ValidTracing t
  unfolding check_tracing
  check_tracing_iff t =
      let e = not_empty_iff t.endpoint in
      (
        λ p. (e.0 ((reject_iff _ _).0 p.0), ground arith, ground arith),
        λ v. ((reject_iff _ _).1 (e.1 v.0), ((reject_iff _ _).1 (ground arith), tt)),
      )

  database_iff :
      (driver dsn : Text)
      → ((text_eq driver (codes "postgres") && text_eq dsn []) ≡ false)
        ↔ ((driver ≢ codes "postgres") ⊎ (dsn ≢ []))
  database_iff driver dsn =
      let d = text_eq_iff driver (codes "postgres") in
      let e = not_empty_iff dsn in
      (
        λ h. elim (Bool-cases (text_eq dsn [])) [
          | inl t ↦ inl (λ z. ground arith)
          | inr f ↦ inr (e.0 f)
        ],
        λ v. elim v [
          | inl n ↦ elim (Bool-cases (text_eq driver (codes "postgres"))) [
            | inl t ↦ absurd (n (d.0 t))
            | inr f ↦ rw f
          ]
          | inr n ↦ rw (e.1 n) (ground arith)
        ],
      )

  module _ (net : Net) (crypto : Crypto) (env : Environment) where
    abbrev IsAddress : Text → Type 0
    IsAddress value = is_some (env.split_host_port value) ≡ true

    -- What a configuration has to be.
    pub record Valid (c : Config floats) : Type 0 where
      pub some_backend : c.upstreams.backends ≢ []
      pub backends : All ValidBackend c.upstreams.backends
      pub listen : IsAddress c.listen
      pub metrics_listen : IsAddress c.metrics_listen
      pub admin_listen : IsAddress c.admin_listen
      pub apart : Apart crypto env c.listen c.metrics_listen c.admin_listen
      pub max_body_size : pos 0 <ℤ c.max_body_size
      pub key_cleanup_interval : pos 0 ≤ℤ c.key_cleanup_interval
      pub shutdown_wait : pos 0 <ℤ c.shutdown_wait
      pub audit_buffer_size : pos 0 <ℤ c.audit_buffer_size
      pub audit_enqueue_timeout : pos 0 ≤ℤ c.audit_enqueue_timeout
      pub audit_body_max_bytes : pos 0 ≤ℤ c.audit_body_max_bytes
      pub trusted_proxies : All (IsCidr (λ s. is_some (net.parse_cidr s))) c.trusted_proxies
      pub plugins : All (λ e. ValidPlugin crypto env e.1) c.plugins
      pub default_timeout : pos 0 <ℤ c.plugin_defaults.timeout
      pub default_breaker : ValidBreaker c.plugin_defaults.circuit_breaker
      pub some_secret : c.hmac_secrets ≢ []
      pub hmac_secrets : All ValidSecret c.hmac_secrets
      pub rate_limit : (c.rate_limit.enabled ≡ false) ⊎ ValidRate c.rate_limit
      pub health_check :
          (ltb 1 (length c.upstreams.backends) ≡ false) ⊎ ValidHealth c.upstreams.health_check
      pub tracing : (c.tracing.enabled ≡ false) ⊎ ValidTracing c.tracing
      pub database : (c.db_driver ≢ codes "postgres") ⊎ (c.db_dsn ≢ [])

    module _ (c : Config floats) where
      groups-Valid : All Passes (groups floats net crypto env c) → Valid c
      unfolding groups
      groups-Valid p =
          let up = p.0 in
          let n = p.1.0 in
          let d = p.1.1.1.1.0 in
          let s = p.1.1.1.1.1.0 in
          let o = p.1.1.1.1.1.1 in
          record {
            some_backend = (nonempty_iff c.upstreams.backends).0 ((reject_iff _ _).0 up.0);
            backends = (check_backends_iff 0 c.upstreams.backends).0 up.1;
            listen = (check_address_iff crypto env _ c.listen).0 n.0;
            metrics_listen = (check_address_iff crypto env _ c.metrics_listen).0 n.1.0;
            admin_listen = (check_address_iff crypto env _ c.admin_listen).0 n.1.1.0;
            apart =
                (check_conflicts_iff crypto env _ c.listen _ c.metrics_listen _ c.admin_listen).0
                  n.1.1.1.0;
            max_body_size = (positive_iff _ c.max_body_size).0 n.1.1.1.1.0;
            key_cleanup_interval = (not_below_zero_iff _ c.key_cleanup_interval).0 n.1.1.1.1.1.0;
            shutdown_wait = (positive_iff _ c.shutdown_wait).0 n.1.1.1.1.1.1.0;
            audit_buffer_size = (positive_iff _ c.audit_buffer_size).0 n.1.1.1.1.1.1.1.0;
            audit_enqueue_timeout =
                (not_below_zero_iff _ c.audit_enqueue_timeout).0 n.1.1.1.1.1.1.1.1.0;
            audit_body_max_bytes =
                (not_below_zero_iff _ c.audit_body_max_bytes).0 n.1.1.1.1.1.1.1.1.1.0;
            trusted_proxies =
                (check_proxies_iff (λ s. is_some (net.parse_cidr s)) 0 c.trusted_proxies).0 p.1.1.0;
            plugins = (check_plugins_iff crypto env c.plugins).0 p.1.1.1.0;
            default_timeout = (positive_iff _ c.plugin_defaults.timeout).0 d.0;
            default_breaker =
                (validate_circuit_breaker_iff c.plugin_defaults.circuit_breaker _).0 d.1;
            some_secret = (nonempty_iff c.hmac_secrets).0 ((reject_iff _ _).0 s.0);
            hmac_secrets = (check_secrets_iff 0 c.hmac_secrets).0 s.1;
            rate_limit = when-or c.rate_limit.enabled _ (check_rate_limit_iff c.rate_limit) o.0;
            health_check = when-or _ _ (check_health_iff c.upstreams.health_check) o.1.0;
            tracing = when-or c.tracing.enabled _ (check_tracing_iff c.tracing) o.1.1.0;
            database = (database_iff c.db_driver c.db_dsn).0 ((reject_iff _ _).0 o.1.1.1.0.0);
          }

      Valid-groups : Valid c → All Passes (groups floats net crypto env c)
      unfolding groups
      Valid-groups v = (
        (
          (reject_iff _ _).1 ((nonempty_iff c.upstreams.backends).1 v.some_backend),
          (check_backends_iff 0 c.upstreams.backends).1 v.backends,
        ),
        (
          (
            (check_address_iff crypto env _ c.listen).1 v.listen,
            (
              (check_address_iff crypto env _ c.metrics_listen).1 v.metrics_listen,
              (
                (check_address_iff crypto env _ c.admin_listen).1 v.admin_listen,
                (
                  (check_conflicts_iff crypto env _ c.listen _ c.metrics_listen _ c.admin_listen).1
                      v.apart,
                  (
                    (positive_iff _ c.max_body_size).1 v.max_body_size,
                    (
                      (not_below_zero_iff _ c.key_cleanup_interval).1 v.key_cleanup_interval,
                      (
                        (positive_iff _ c.shutdown_wait).1 v.shutdown_wait,
                        (
                          (positive_iff _ c.audit_buffer_size).1 v.audit_buffer_size,
                          (
                            (not_below_zero_iff _ c.audit_enqueue_timeout).1
                                v.audit_enqueue_timeout,
                            (
                              (not_below_zero_iff _ c.audit_body_max_bytes).1
                                  v.audit_body_max_bytes,
                              tt,
                            ),
                          ),
                        ),
                      ),
                    ),
                  ),
                ),
              ),
            ),
          ),
          (
            (check_proxies_iff (λ s. is_some (net.parse_cidr s)) 0 c.trusted_proxies).1
                v.trusted_proxies,
            (
              (check_plugins_iff crypto env c.plugins).1 v.plugins,
              (
                (
                  (positive_iff _ c.plugin_defaults.timeout).1 v.default_timeout,
                  (validate_circuit_breaker_iff c.plugin_defaults.circuit_breaker _).1
                      v.default_breaker,
                ),
                (
                  (
                    (reject_iff _ _).1 ((nonempty_iff c.hmac_secrets).1 v.some_secret),
                    (check_secrets_iff 0 c.hmac_secrets).1 v.hmac_secrets,
                  ),
                  (
                    or-when c.rate_limit.enabled _ (check_rate_limit_iff c.rate_limit) v.rate_limit,
                    (
                      or-when _ _ (check_health_iff c.upstreams.health_check) v.health_check,
                      (
                        or-when c.tracing.enabled _ (check_tracing_iff c.tracing) v.tracing,
                        (
                          (
                            (reject_iff _ _).1 ((database_iff c.db_driver c.db_dsn).1 v.database),
                            tt,
                          ),
                          tt,
                        ),
                      ),
                    ),
                  ),
                ),
              ),
            ),
          ),
        ),
      )

      pub validate_iff : (validate floats net crypto env c ≡ none) ↔ Valid c
      unfolding validate
      validate_iff =
          let all = first_error_iff (all_checks (groups floats net crypto env c)) in
          let each = Passes-all_checks (groups floats net crypto env c) in
          (λ h. groups-Valid (each.0 (all.0 h)), λ v. all.1 (each.1 (Valid-groups v)))
