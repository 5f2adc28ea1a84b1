-- ===== src/Config/Tests.antt =====
-- A small configuration, with the parameters of the admin API's tests.
use pdag.Common.{
  ℕ, ◌≡◌, refl, true, false, ◌==◌, codes, text_eq, List, [], ◌∷◌, none, some, ltb, ltb_ℤ, pos,
  lookup, trim_space, trim_left, is_space, put, erase,
}
use mathlib.Core.List.{reverse}
use mathlib.Core.Option.{map as option_map}
use pdag.Header.{get, canonical_header_key}
use pdag.Store.{get_by_id}
use pdag.Authn.{serve_http, next}
use pdag.Admin.{found_or_absent}
use pdag.Admin.Handlers.{parse_expiry}
use pdag.Admin.Tests.{
  padding, digits, parsers, hosts, calm, empty, random, request_body, id, secret, with_alice, login,
  promises, alice_created,
}
use pdag.Config.{Floats, Environment, Config, HmacSecret, PluginConfig}
use pdag.Config.Checks.{
  first_error, check_backends, check_secrets, check_plugins, check_plugin, check_stat, check_digest,
  check_address, check_conflicts, check_proxies, validate_circuit_breaker, normalize_listen_addr,
  check_rate_limit, check_health, check_tracing,
}
use pdag.Config.Validate.{groups, validate}
use pdag.Config.Secrets.{add_secrets, hmac_secret_by_id, plugin_config_resolved, with_defaults}
use pdag.Config.Start.{last_secret_wins, new_keys_work}

abbrev pub floats : Floats
floats = record {
  Float64 = ℕ;
  at_most_zero = λ x. x == 0;
  below_zero = λ x. false;
  above_one = λ x. ltb 1 x;
}

abbrev pub env : Environment
env = record {
  read_file = λ path. none;
  stat = λ path. some (record { is_dir = false; mode = 493 });
  split_host_port = λ s. some ([], s);
}

abbrev pub current : HmacSecret
current = record { id = codes "h"; secret = codes "0123456789abcdef"; secret_file = [] }

abbrev plugin : PluginConfig
plugin = record {
  path = codes "p";
  sha256 = [];
  timeout = pos 0;
  circuit_breaker = record {
    failure_threshold = pos 0;
    success_threshold = pos 3;
    cooldown = pos 0;
  };
}

abbrev pub config : Config floats
config = record {
  listen = codes "1";
  max_body_size = pos 10;
  audit_log = [];
  audit_buffer_size = pos 4;
  audit_log_body = false;
  audit_fail_closed = false;
  audit_enqueue_timeout = pos 0;
  audit_body_max_bytes = pos 0;
  audit_redact_fields = [];
  admin_token = codes "t";
  admin_token_file = [];
  shutdown_wait = pos 1;
  key_cleanup_interval = pos 0;
  trusted_proxies = codes "h" ∷ [];
  upstreams = record {
    backends = record { url = codes "u"; api_key = codes "k"; api_key_file = [] } ∷ [];
    health_check = record { interval = pos 0; timeout = pos 0; path = [] };
  };
  db_driver = codes "memory";
  db_dsn = [];
  metrics_listen = codes "2";
  admin_listen = codes "3";
  hmac_secrets = current ∷ [];
  rate_limit = record { enabled = true; rate = 1; burst = pos 1 };
  tracing = record { enabled = false; endpoint = []; insecure = false; sample_rate = 1 };
  plugin_defaults = record {
    timeout = pos 5;
    circuit_breaker = record {
      failure_threshold = pos 5;
      success_threshold = pos 2;
      cooldown = pos 9;
    };
  };
  plugins = (codes "p", plugin) ∷ [];
}

pub config_accepted : validate floats hosts padding env config ≡ none
unfolding validate groups first_error check_backends text_eq check_address check_conflicts lookup
    put normalize_listen_addr erase ltb_ℤ check_proxies check_plugins check_plugin check_stat
    validate_circuit_breaker check_digest check_secrets check_rate_limit is_space trim_left
    trim_space check_health check_tracing
config_accepted = refl

abbrev pub with_database : Config floats
with_database = record config { db_driver = codes "postgres"; db_dsn = codes "d" }

pub with_database_accepted : validate floats hosts padding env with_database ≡ none
unfolding validate groups first_error check_backends text_eq check_address check_conflicts lookup
    put normalize_listen_addr erase ltb_ℤ check_proxies check_plugins check_plugin check_stat
    validate_circuit_breaker check_digest check_secrets check_rate_limit is_space trim_left
    trim_space check_health check_tracing
with_database_accepted = refl

abbrev resolved : PluginConfig
resolved = record plugin {
  timeout = pos 5;
  circuit_breaker = record {
    failure_threshold = pos 5;
    success_threshold = pos 3;
    cooldown = pos 9;
  };
}

plugin_resolved : plugin_config_resolved env floats config (codes "p") ≡ some resolved
unfolding plugin_config_resolved with_defaults lookup text_eq
plugin_resolved = refl

abbrev twice : List HmacSecret
twice = current ∷ record current { secret = codes "another_secret_0" } ∷ []

last_secret_wins_example :
    lookup (codes "h") (add_secrets twice [])
    ≡ option_map (λ s. s.secret) (hmac_secret_by_id (reverse twice) (codes "h"))
last_secret_wins_example = last_secret_wins twice (codes "h")

new_keys_work_example :
    (serve_http padding hosts
      (add_secrets (current ∷ []) [])
      (λ i. found_or_absent (get_by_id with_alice.keys i))
      []
      login
      5).reply
    ≡ next (record { principal = codes "alice"; key_id = id; roles = codes "admin" ∷ [] })
unfolding text_eq get canonical_header_key parse_expiry lookup hmac_secret_by_id
new_keys_work_example =
    new_keys_work floats hosts padding env config current digits parsers promises calm empty
      with_alice random request_body id secret (codes "alice") (codes "admin" ∷ []) [] login 5
      config_accepted refl (refl, tt) refl alice_created refl refl
