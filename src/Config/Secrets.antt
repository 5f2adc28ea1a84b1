-- ===== src/Config/Secrets.antt =====
-- internal/config/config.go: the secrets that are read from files, and what the gateway looks up in the
-- configuration; cmd/pdag/serve.go: its map from the IDs of HMAC secrets to the secrets.
use pdag.Common.{
  ℕ, zero, suc, ◌+◌, not, ◌&&◌, ◌||◌, ◌==◌, Text, text_eq, List, [], ◌∷◌, Option, none, some,
  is_empty, if◌then◌else◌, ℤ, pos, negsuc, lookup, put,
}
use pdag.Authn.{Secrets}
use pdag.Admin.Keygen.{Generator}
use pdag.Config.{
  UpstreamBackend, HmacSecret, PluginConfig, PluginDefaults, Floats, Environment, Config,
}

-- strings.TrimRight with "\r\n".
unfoldable pub trim_secret : Text → Text
trim_secret [] = []
trim_secret (c ∷ s) =
    let rest = trim_secret s in if is_empty rest && (c == b'\n' || c == b'\r') then [] else c ∷ rest

-- The errors of resolveSecretFiles, with the number of the backend or secret.
pub data Setting : Type 0 where
  admin_token_file : Setting
  api_key_file secret_file : ℕ → Setting

pub data FileError : Type 0 where
  inline_is_set unreadable : Setting → FileError

pub data Result (A : Type 0) : Type 0 where
  ok : A → Result A
  failed : FileError → Result A

unfoldable pub and_then : {A B : Type 0} → Result A → (A → Result B) → Result B
and_then (ok a) f = f a
and_then (failed e) f = failed e

-- The configuration of a plugin with the defaults for what is not set.
abbrev pub or_default : ℤ → ℤ → ℤ
or_default (pos zero) d = d
or_default (pos (suc n)) d = pos (suc n)
or_default (negsuc n) d = negsuc n

unfoldable pub with_defaults : PluginDefaults → PluginConfig → PluginConfig
with_defaults defaults pc = record pc {
  timeout = or_default pc.timeout defaults.timeout;
  circuit_breaker = record {
    failure_threshold =
        or_default pc.circuit_breaker.failure_threshold defaults.circuit_breaker.failure_threshold;
    success_threshold =
        or_default pc.circuit_breaker.success_threshold defaults.circuit_breaker.success_threshold;
    cooldown = or_default pc.circuit_breaker.cooldown defaults.circuit_breaker.cooldown;
  };
}

-- HmacSecretByID, `none` for its error.
unfoldable pub hmac_secret_by_id : List HmacSecret → Text → Option HmacSecret
hmac_secret_by_id [] id = none
hmac_secret_by_id (s ∷ ss) id = if text_eq s.id id then some s else hmac_secret_by_id ss id

-- CurrentHmacSecret, `none` for its error.
abbrev pub current_hmac_secret : List HmacSecret → Option HmacSecret
current_hmac_secret [] = none
current_hmac_secret (s ∷ ss) = some s

-- The loop that fills hmacSecrets.
unfoldable pub add_secrets : List HmacSecret → Secrets → Secrets
add_secrets [] m = m
add_secrets (s ∷ ss) m = add_secrets ss (put s.id s.secret m)

-- The kinds of store that openKeyStore opens.
pub data KeyStore : Type 0 where
  in_memory postgres : KeyStore

-- Which store openKeyStore opens, if it can, for a DSN.
abbrev pub open_key_store : Text → KeyStore
open_key_store dsn = if not (text_eq dsn []) then postgres else in_memory

-- The generator of the admin API's keys.
abbrev pub keygen_of : HmacSecret → Generator
keygen_of current = record { hmac_key_id = current.id; hmac_secret = current.secret }

module _ (env : Environment) where
  open env use {read_file}

  -- The function `resolve`, with the new value.
  unfoldable pub resolve : Text → Text → Setting → Result Text
  resolve value file_path setting =
      if text_eq file_path []
      then ok value
      else if not (text_eq value [])
      then failed (inline_is_set setting)
      else elim (read_file file_path) [
        | none ↦ failed (unreadable setting)
        | some content ↦ ok (trim_secret content)
      ]

  unfoldable pub resolve_backends : ℕ → List UpstreamBackend → Result (List UpstreamBackend)
  unfolding and_then
  resolve_backends i [] = ok []
  resolve_backends i (b ∷ bs) = and_then (resolve b.api_key b.api_key_file (api_key_file i)) (λ key.
      and_then (resolve_backends (i + 1) bs) (λ rest. ok (record b { api_key = key } ∷ rest)))

  unfoldable pub resolve_secrets : ℕ → List HmacSecret → Result (List HmacSecret)
  unfolding and_then
  resolve_secrets i [] = ok []
  resolve_secrets i (s ∷ ss) = and_then (resolve s.secret s.secret_file (secret_file i)) (λ secret.
      and_then (resolve_secrets (i + 1) ss) (λ rest. ok (record s { secret = secret } ∷ rest)))

  module _ (floats : Floats) where
    unfoldable pub resolve_secret_files : Config floats → Result (Config floats)
    unfolding and_then
    resolve_secret_files c =
        and_then (resolve c.admin_token c.admin_token_file admin_token_file) (λ token.
          and_then (resolve_backends 0 c.upstreams.backends) (λ backends.
            and_then (resolve_secrets 0 c.hmac_secrets) (λ secrets. ok (record c {
              admin_token = token;
              upstreams = record c.upstreams { backends = backends };
              hmac_secrets = secrets;
            }))))

    -- PluginConfigResolved, `none` for its error.
    unfoldable pub plugin_config_resolved : Config floats → Text → Option PluginConfig
    unfolding with_defaults
    plugin_config_resolved c name = elim (lookup name c.plugins) [
      | none ↦ none
      | some pc ↦ some (with_defaults c.plugin_defaults pc)
    ]
