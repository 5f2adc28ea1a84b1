-- ===== src/Config.antt =====
-- internal/config/config.go: the configuration, how its secrets are read from files, how it is checked, and
-- what the gateway reads of it. Durations are in nanoseconds. The values of a float64 and the tests on them
-- are a parameter; so are the file system, net.SplitHostPort and net.ParseCIDR, and hex.DecodeString. The
-- loop over a map goes along the list of its entries. Logged warnings are left out, and viper has filled in
-- the defaults.
pub mod Secrets
pub mod Checks
pub mod Validate
pub mod Valid
pub mod Accepts
pub mod Start
pub mod Tests
use pdag.Common.{ℕ, Bool, Text, List, ◌∷◌, [], Option, none, some, ℤ}

pub record UpstreamBackend : Type 0 where
  pub url : Text
  pub api_key : Text
  pub api_key_file : Text

pub record HealthCheckConfig : Type 0 where
  pub interval : ℤ
  pub timeout : ℤ
  pub path : Text

pub record Upstreams : Type 0 where
  pub backends : List UpstreamBackend
  pub health_check : HealthCheckConfig

pub record HmacSecret : Type 0 where
  pub id : Text
  pub secret : Text
  pub secret_file : Text

pub record CircuitBreaker : Type 0 where
  pub failure_threshold : ℤ
  pub success_threshold : ℤ
  pub cooldown : ℤ

pub record PluginConfig : Type 0 where
  pub path : Text
  pub sha256 : Text
  pub timeout : ℤ
  pub circuit_breaker : CircuitBreaker

pub record PluginDefaults : Type 0 where
  pub timeout : ℤ
  pub circuit_breaker : CircuitBreaker

-- What is used of float64: x <= 0, x < 0 and x > 1.
pub record Floats : Type 1 where
  pub Float64 : Type 0
  pub at_most_zero : Float64 → Bool
  pub below_zero : Float64 → Bool
  pub above_one : Float64 → Bool

-- What is used of os.Stat: IsDir, and Mode as a number.
pub record FileInfo : Type 0 where
  pub is_dir : Bool
  pub mode : ℕ

-- What is used of os and net: ReadFile, Stat, and the host and port of SplitHostPort.
pub record Environment : Type 0 where
  pub read_file : Text → Option Text
  pub stat : Text → Option FileInfo
  pub split_host_port : Text → Option (Text × Text)

module _ (floats : Floats) where
  pub record RateLimit : Type 0 where
    pub enabled : Bool
    pub rate : floats.Float64
    pub burst : ℤ

  pub record Tracing : Type 0 where
    pub enabled : Bool
    pub endpoint : Text
    pub insecure : Bool
    pub sample_rate : floats.Float64

  -- Config, with the fields of DB, Metrics and Admin in it.
  pub record Config : Type 0 where
    pub listen : Text
    pub max_body_size : ℤ
    pub audit_log : Text
    pub audit_buffer_size : ℤ
    pub audit_log_body : Bool
    pub audit_fail_closed : Bool
    pub audit_enqueue_timeout : ℤ
    pub audit_body_max_bytes : ℤ
    pub audit_redact_fields : List Text
    pub admin_token : Text
    pub admin_token_file : Text
    pub shutdown_wait : ℤ
    pub key_cleanup_interval : ℤ
    pub trusted_proxies : List Text
    pub upstreams : Upstreams
    pub db_driver : Text
    pub db_dsn : Text
    pub metrics_listen : Text
    pub admin_listen : Text
    pub hmac_secrets : List HmacSecret
    pub rate_limit : RateLimit
    pub tracing : Tracing
    pub plugin_defaults : PluginDefaults
    pub plugins : List (Text × PluginConfig)
