-- ===== src/Config/Validate.antt =====
-- validate: the checks in the order of the code.
use pdag.Common.{
  Bool, not, ◌&&◌, Text, codes, text_eq, List, [], ◌∷◌, ◌++◌, Option, length, is_empty, ltb,
  is_some, if◌then◌else◌, ℤ,
}
use pdag.ClientIp.{Net}
use pdag.Authn.{Crypto}
use pdag.Config.{Floats, Environment, Config}
use pdag.Config.Checks.{
  Error, backends_required, hmac_secrets_required, dsn_required, not_positive, negative, reject,
  first_error, is_positive, is_negative, check_backends, validate_circuit_breaker, check_secrets,
  check_plugins, check_address, check_conflicts, check_proxies, check_health, check_rate_limit,
  check_tracing,
}

-- The checks that only some configurations need.
abbrev pub when : Bool → List (Option Error) → List (Option Error)
when test checks = if test then checks else []

abbrev pub positive : Text → ℤ → Option Error
positive name z = reject (not (is_positive z)) (not_positive name z)

abbrev pub not_below_zero : Text → ℤ → Option Error
not_below_zero name z = reject (is_negative z) (negative name z)

-- The checks of all groups, one after the other.
abbrev pub all_checks : List (List (Option Error)) → List (Option Error)
all_checks [] = []
all_checks (group ∷ groups) = group ++ all_checks groups

module _ (floats : Floats) (net : Net) (crypto : Crypto) (env : Environment) where
  open net use {parse_cidr}

  abbrev pub addresses : Config floats → List (Text × Text)
  addresses c =
      (codes "listen", c.listen)
      ∷ (codes "metrics.listen", c.metrics_listen)
      ∷ (codes "admin.listen", c.admin_listen)
      ∷ []

  unfoldable pub groups : Config floats → List (List (Option Error))
  groups c =
      (reject (is_empty c.upstreams.backends) backends_required
        ∷ check_backends 0 c.upstreams.backends)
      ∷ (check_address crypto env (codes "listen") c.listen
          ∷ check_address crypto env (codes "metrics.listen") c.metrics_listen
          ∷ check_address crypto env (codes "admin.listen") c.admin_listen
          ∷ check_conflicts crypto env (addresses c) []
          ∷ positive (codes "max_body_size") c.max_body_size
          ∷ not_below_zero (codes "key_cleanup_interval") c.key_cleanup_interval
          ∷ positive (codes "shutdown_wait") c.shutdown_wait
          ∷ positive (codes "audit_buffer_size") c.audit_buffer_size
          ∷ not_below_zero (codes "audit_enqueue_timeout") c.audit_enqueue_timeout
          ∷ not_below_zero (codes "audit_body_max_bytes") c.audit_body_max_bytes
          ∷ [])
      ∷ check_proxies (λ s. is_some (parse_cidr s)) 0 c.trusted_proxies
      ∷ check_plugins crypto env c.plugins
      ∷ (positive (codes "plugin_defaults.timeout") c.plugin_defaults.timeout
          ∷ validate_circuit_breaker c.plugin_defaults.circuit_breaker (codes "plugin_defaults"))
      ∷ (reject (is_empty c.hmac_secrets) hmac_secrets_required ∷ check_secrets 0 c.hmac_secrets)
      ∷ when c.rate_limit.enabled (check_rate_limit floats c.rate_limit)
      ∷ when (ltb 1 (length c.upstreams.backends)) (check_health c.upstreams.health_check)
      ∷ when c.tracing.enabled (check_tracing floats c.tracing)
      ∷ (reject (text_eq c.db_driver (codes "postgres") && text_eq c.db_dsn []) dsn_required ∷ [])
      ∷ []

  unfoldable pub validate : Config floats → Option Error
  unfolding first_error
  validate c = first_error (all_checks (groups c))
