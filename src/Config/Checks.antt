-- ===== src/Config/Checks.antt =====
-- The checks of validate, each with the error that it returns.
use pdag.Common.{
  ℕ, ◌+◌, ◌/◌, ◌%◌, Bool, not, ◌&&◌, ◌||◌, ◌==◌, Text, codes, text_eq, trim_space, List, [], ◌∷◌,
  ◌++◌, Option, none, some, length, ltb, is_some, if◌then◌else◌, ℤ, pos, ltb_ℤ, lookup, put,
}
use pdag.Authn.{Crypto}
use pdag.Config.{
  UpstreamBackend, HealthCheckConfig, HmacSecret, CircuitBreaker, PluginConfig, Floats, FileInfo,
  Environment, RateLimit, Tracing,
}

-- The errors of validate, each with what its message names.
pub data Error : Type 0 where
  backends_required hmac_secrets_required rate_not_positive endpoint_required sample_rate_range
        dsn_required :
      Error
  url_required api_key_required id_and_secret_required : ℕ → Error
  invalid_address : Text → Text → Error
  shared_address : Text → Text → Text → Error
  not_positive negative : Text → ℤ → Error
  invalid_cidr : ℕ → Text → Error
  missing_plugin plugin_is_directory plugin_not_executable : Text → Text → Error
  digest_length : Text → ℕ → Error
  digest_not_hex : Text → Error
  secret_too_short : ℕ → ℕ → Error
  timeout_too_long : ℤ → ℤ → Error

-- The error if the test holds.
abbrev pub reject : Bool → Error → Option Error
reject test e = if test then some e else none

-- `if err != nil { return err }` after each of the checks.
unfoldable pub first_error : List (Option Error) → Option Error
first_error [] = none
first_error (some e ∷ checks) = some e
first_error (none ∷ checks) = first_error checks

abbrev pub is_positive : ℤ → Bool
is_positive z = ltb_ℤ (pos 0) z

abbrev pub is_negative : ℤ → Bool
is_negative z = ltb_ℤ z (pos 0)

unfoldable pub check_backends : ℕ → List UpstreamBackend → List (Option Error)
check_backends i [] = []
check_backends i (b ∷ bs) =
    reject (text_eq b.url []) (url_required i)
    ∷ reject (text_eq b.api_key []) (api_key_required i)
    ∷ check_backends (i + 1) bs

-- validateCircuitBreaker
unfoldable pub validate_circuit_breaker : CircuitBreaker → Text → List (Option Error)
validate_circuit_breaker cb prefix =
    reject (is_negative cb.failure_threshold)
      (negative (prefix ++ codes ".circuit_breaker.failure_threshold") cb.failure_threshold)
    ∷ reject (is_negative cb.success_threshold)
        (negative (prefix ++ codes ".circuit_breaker.success_threshold") cb.success_threshold)
    ∷ reject (is_negative cb.cooldown)
        (negative (prefix ++ codes ".circuit_breaker.cooldown") cb.cooldown)
    ∷ []

unfoldable pub check_secrets : ℕ → List HmacSecret → List (Option Error)
check_secrets i [] = []
check_secrets i (s ∷ ss) =
    reject (text_eq s.id [] || text_eq s.secret []) (id_and_secret_required i)
    ∷ reject (ltb (length s.secret) 16) (secret_too_short i (length s.secret))
    ∷ check_secrets (i + 1) ss

-- mode & 0111 == 0
abbrev pub not_executable : ℕ → Bool
not_executable mode = mode % 2 == 0 && mode / 8 % 2 == 0 && mode / 64 % 2 == 0

unfoldable pub check_stat : Text → Text → Option FileInfo → Option Error
check_stat name path none = some (missing_plugin name path)
check_stat name path (some info) =
    if info.is_dir
    then some (plugin_is_directory name path)
    else if not_executable info.mode
    then some (plugin_not_executable name path)
    else none

module _ (crypto : Crypto) (env : Environment) where
  open env use {stat, split_host_port}

  abbrev pub plugin_prefix : Text → Text
  plugin_prefix name = codes "plugins." ++ name

  unfoldable pub check_digest : Text → Text → Option Error
  check_digest name sha256 =
      if text_eq sha256 []
      then none
      else if not (length sha256 == 64)
      then some (digest_length name (length sha256))
      else reject (not (is_some (crypto.decode_string sha256))) (digest_not_hex name)

  unfoldable pub check_plugin : Text → PluginConfig → List (Option Error)
  check_plugin name pc =
      check_stat name pc.path (stat pc.path)
        ∷ validate_circuit_breaker pc.circuit_breaker (plugin_prefix name)
      ++ reject (is_negative pc.timeout)
          (negative (plugin_prefix name ++ codes ".timeout") pc.timeout)
        ∷ check_digest name pc.sha256
        ∷ []

  unfoldable pub check_plugins : List (Text × PluginConfig) → List (Option Error)
  check_plugins [] = []
  check_plugins ((name, pc) ∷ plugins) = check_plugin name pc ++ check_plugins plugins

  -- An address and the name of its setting.
  unfoldable pub check_address : Text → Text → Option Error
  check_address name value =
      reject (not (is_some (split_host_port value))) (invalid_address name value)

  abbrev is_wildcard : Text → Bool
  is_wildcard host = text_eq host [] || text_eq host (codes "0.0.0.0") || text_eq host (codes "::")

  -- normalizeListenAddr
  unfoldable pub normalize_listen_addr : Text → Text
  normalize_listen_addr addr = elim (split_host_port addr) [
    | none ↦ addr
    | some (host, port) ↦ (if is_wildcard host then codes "*" else host) ++ b':' ∷ port
  ]

  -- The loop over the addresses with the map `seen`.
  unfoldable pub check_conflicts : List (Text × Text) → List (Text × Text) → Option Error
  check_conflicts [] seen = none
  check_conflicts ((name, value) ∷ addrs) seen =
      let rest = check_conflicts addrs (put (normalize_listen_addr value) name seen) in
      elim (lookup (normalize_listen_addr value) seen) [
        | some other ↦ some (shared_address other name value)
        | none ↦ rest
      ]

unfoldable pub check_proxies : (Text → Bool) → ℕ → List Text → List (Option Error)
check_proxies is_cidr i [] = []
check_proxies is_cidr i (c ∷ cs) =
    reject (not (is_cidr (trim_space c))) (invalid_cidr i c) ∷ check_proxies is_cidr (i + 1) cs

unfoldable pub check_health : HealthCheckConfig → List (Option Error)
check_health hc =
    reject (not (is_positive hc.interval))
      (not_positive (codes "upstreams.health_check.interval") hc.interval)
    ∷ reject (not (is_positive hc.timeout))
        (not_positive (codes "upstreams.health_check.timeout") hc.timeout)
    ∷ reject (not (ltb_ℤ hc.timeout hc.interval)) (timeout_too_long hc.timeout hc.interval)
    ∷ []

module _ (floats : Floats) where
  open floats use {at_most_zero, below_zero, above_one}

  unfoldable pub check_rate_limit : RateLimit floats → List (Option Error)
  check_rate_limit rl =
      reject (at_most_zero rl.rate) rate_not_positive
      ∷ reject (not (is_positive rl.burst)) (not_positive (codes "rate_limit.burst") rl.burst)
      ∷ []

  unfoldable pub check_tracing : Tracing floats → List (Option Error)
  check_tracing t =
      reject (text_eq t.endpoint []) endpoint_required
      ∷ reject (below_zero t.sample_rate || above_one t.sample_rate) sample_rate_range
      ∷ []
