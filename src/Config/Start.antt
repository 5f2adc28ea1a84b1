-- ===== src/Config/Start.antt =====
-- cmd/pdag/serve.go: what a configuration that validate accepts means for the parts that it starts.
use pdag.Common.{
  ℕ, zero, suc, ◌≡◌, ◌≢◌, ◌≤◌, inl, inr, refl, false, Text, codes, text_eq, List, [], ◌∷◌, ◌++◌,
  Option, none, some, length, is_some, ℤ, pos, negsuc, ◌≤ℤ◌, ◌<ℤ◌, All, arith, Bool-cases,
  Option-cases, lookup, put, lookup-put, lookup-put_same, subst, trim_space,
}
use mathlib.Core.List.{reverse, reverse-cons}
use mathlib.Core.Option.{map as option_map}
use pdag.Header.{get}
use pdag.ClientIp.{Net, Request, new}
use pdag.Store.{get_by_id, expires_before}
use pdag.Authn.{Crypto, Secrets, serve_http, next}
use pdag.Admin.{State, Conditions, created, found_or_absent}
use pdag.Admin.Keygen.{Random}
use pdag.Admin.Handlers.{Parsers, CreateKeyRequest, create_key}
use pdag.Admin.Issued.{Promises}
use pdag.Admin.Lifecycle.{requested, create_key-serve_http}
use pdag.Config.{Floats, Environment, Config, HmacSecret, PluginConfig}
use pdag.Config.Validate.{validate}
use pdag.Config.Valid.{IsCidr, ValidSecret, ValidBreaker, ValidPlugin}
use pdag.Config.Accepts.{validate_iff}
use pdag.Config.Secrets.{
  hmac_secret_by_id, current_hmac_secret, add_secrets, keygen_of, with_defaults, or_default,
  plugin_config_resolved, open_key_store, in_memory,
}

by_id-append :
    (ss ts : List HmacSecret) (id : Text)
    → hmac_secret_by_id (ss ++ ts) id
      ≡ elim (hmac_secret_by_id ss id) [ none ↦ hmac_secret_by_id ts id | some s ↦ some s ]
unfolding hmac_secret_by_id
by_id-append [] ts id = refl
by_id-append (s ∷ ss) ts id = ground (arith, by_id-append ss ts id)

-- The secret that the gateway has for an ID.
abbrev pub secret_for : Option HmacSecret → Option Text → Option Text
secret_for none rest = rest
secret_for (some s) rest = some s.secret

lookup-add_secrets :
    (ss : List HmacSecret) (m : Secrets) (id : Text)
    → lookup id (add_secrets ss m) ≡ secret_for (hmac_secret_by_id (reverse ss) id) (lookup id m)
unfolding add_secrets hmac_secret_by_id
lookup-add_secrets [] m id = refl
lookup-add_secrets (s ∷ ss) m id =
    rw
      (
        lookup-add_secrets ss (put s.id s.secret m) id,
        reverse-cons s ss,
        by_id-append (reverse ss) (s ∷ []) id,
      )
      (elim (Option-cases (hmac_secret_by_id (reverse ss) id)) [
        | inl e ↦
            rw (e, lookup-put s.id id s.secret m)
              (elim (Bool-cases (text_eq s.id id)) [ inl t ↦ rw t refl | inr f ↦ rw f refl ])
        | inr (t, e) ↦ rw e refl
      ])

-- The map of the gateway has for each ID the secret of the last entry with that ID, where HmacSecretByID
-- takes the first.
pub last_secret_wins :
    (ss : List HmacSecret) (id : Text)
    → lookup id (add_secrets ss []) ≡ option_map (λ s. s.secret) (hmac_secret_by_id (reverse ss) id)
unfolding lookup
last_secret_wins ss id =
    rw (lookup-add_secrets ss [] id) (elim (Option-cases (hmac_secret_by_id (reverse ss) id)) [
      | inl e ↦ rw e refl
      | inr (s, e) ↦ rw e refl
    ])

-- No ID twice.
abbrev pub DistinctIds : List HmacSecret → Type 0
DistinctIds [] = Unit
DistinctIds (s ∷ ss) = (hmac_secret_by_id ss s.id ≡ none) × DistinctIds ss

kept-add_secrets :
    (ss : List HmacSecret) (m : Secrets) (id secret : Text)
    → lookup id m ≡ some secret
    → hmac_secret_by_id ss id ≡ none
    → lookup id (add_secrets ss m) ≡ some secret
unfolding add_secrets hmac_secret_by_id
kept-add_secrets [] m id secret e n = e
kept-add_secrets (s ∷ ss) m id secret e n = elim (Bool-cases (text_eq s.id id)) [
  | inl t ↦ let n' = rw t at n in absurd (ground arith)
  | inr f ↦
      (let n' = rw f at n in
        kept-add_secrets ss (put s.id s.secret m) id secret
          (rw (lookup-put s.id id s.secret m, f) e) n')
]

-- The current secret is the one that the gateway has for its ID.
pub current-add_secrets :
    (ss : List HmacSecret) (s : HmacSecret)
    → DistinctIds ss
    → current_hmac_secret ss ≡ some s
    → lookup s.id (add_secrets ss []) ≡ some s.secret
unfolding add_secrets
current-add_secrets [] s d e = absurd (ground arith)
current-add_secrets (t ∷ ss) s d e =
    let q : t ≡ s = cc in
    subst (λ u. lookup u.id (add_secrets (t ∷ ss) []) ≡ some u.secret) q
      (kept-add_secrets ss (put t.id t.secret []) t.id t.secret (lookup-put_same t.id t.secret [])
        d.0)

pub All-current :
    (ss : List HmacSecret) (s : HmacSecret)
    → All ValidSecret ss
    → current_hmac_secret ss ≡ some s
    → ValidSecret s
All-current [] s v e = absurd (ground arith)
All-current (t ∷ ss) s v e = let q : t ≡ s = cc in subst ValidSecret q v.0

pub long-ne-nil : (s : Text) → 16 ≤ length s → s ≢ []
long-ne-nil [] h = absurd (ground arith)
long-ne-nil (c ∷ s) h = λ e. cc

proxies-parse :
    (net : Net) (cs : List Text)
    → All (IsCidr (λ s. is_some (net.parse_cidr s))) cs
    → (trusted : List net.IpNet) × (new net cs ≡ some trusted)
unfolding new
proxies-parse net [] h = ([], refl)
proxies-parse net (c ∷ cs) h =
    let rest = proxies-parse net cs h.1 in
    elim (Option-cases (net.parse_cidr (trim_space c))) [
      | inl e ↦ let h' = rw e at h.0 in absurd (ground arith)
      | inr (n, e) ↦ (n ∷ rest.0, rw (e, new) (rw rest.1 refl))
    ]

-- A plugin's settings once the defaults are in place.
abbrev pub Ready : PluginConfig → Type 0
Ready pc = (pos 0 <ℤ pc.timeout) × ValidBreaker pc.circuit_breaker

or_default-nonneg : (z d : ℤ) → pos 0 ≤ℤ z → pos 0 ≤ℤ d → pos 0 ≤ℤ or_default z d
or_default-nonneg (pos zero) d h k = k
or_default-nonneg (pos (suc n)) d h k = h
or_default-nonneg (negsuc n) d h k = h

or_default-positive : (z d : ℤ) → pos 0 ≤ℤ z → pos 0 <ℤ d → pos 0 <ℤ or_default z d
or_default-positive (pos zero) d h k = k
or_default-positive (pos (suc n)) d h k = omega arith
or_default-positive (negsuc n) d h k = absurd (omega arith)

module _ (floats : Floats) (net : Net) (crypto : Crypto) (env : Environment)
    (c : Config floats) where
  -- For a configuration that validate accepts, clientip.New has no error.
  pub trusted_proxies_resolve :
      validate floats net crypto env c ≡ none
      → (trusted : List net.IpNet) × (new net c.trusted_proxies ≡ some trusted)
  trusted_proxies_resolve h =
      let v = (validate_iff floats net crypto env c).0 h in
      proxies-parse net c.trusted_proxies v.trusted_proxies

  All-lookup :
      (name : Text) (plugins : List (Text × PluginConfig)) (pc : PluginConfig)
      → All (λ e. ValidPlugin crypto env e.1) plugins
      → lookup name plugins ≡ some pc
      → ValidPlugin crypto env pc
  unfolding lookup
  All-lookup name [] pc v e = absurd (ground arith)
  All-lookup name ((k, p) ∷ plugins) pc v e = elim (Bool-cases (text_eq k name)) [
    | inl t ↦
        (let e' = rw t at e in let q : p ≡ pc = cc in subst (λ u. ValidPlugin crypto env u) q v.0)
    | inr f ↦ (let e' = rw f at e in All-lookup name plugins pc v.1 e')
  ]

  -- Of a configuration that validate accepts, PluginConfigResolved gives each plugin a timeout above zero and
  -- breaker settings that are not negative.
  pub plugin_config_resolved-Ready :
      (name : Text) (pc : PluginConfig)
      → validate floats net crypto env c ≡ none
      → plugin_config_resolved env floats c name ≡ some pc
      → Ready pc
  unfolding plugin_config_resolved with_defaults
  plugin_config_resolved-Ready name pc h e =
      let v = (validate_iff floats net crypto env c).0 h in
      elim (Option-cases (lookup name c.plugins)) [
        | inl n ↦ let e' = rw (n, plugin_config_resolved) at e in absurd (ground arith)
        | inr (p, l) ↦
            (let e' = rw (l, plugin_config_resolved) at e in
              let q : with_defaults c.plugin_defaults p ≡ pc = cc in
              let w = All-lookup name c.plugins p v.plugins l in
              subst Ready q (
                or_default-positive p.timeout c.plugin_defaults.timeout w.timeout v.default_timeout,
                (
                  or_default-nonneg _ _ w.breaker.0 v.default_breaker.0,
                  or_default-nonneg _ _ w.breaker.1 v.default_breaker.1,
                  or_default-nonneg _ _ w.breaker.2 v.default_breaker.2,
                ),
              ))
      ]

  module _ (current : HmacSecret) (encode_to_string : Text → Text) (parsers : Parsers) where
    -- With a configuration that validate accepts, that has no HMAC secret's ID twice, and with which openKeyStore
    -- opens the in-memory store, a key that createKey hands out under the current secret opens the gateway: a
    -- request whose X-API-Key is the reply's ID and secret, with a colon between, is passed on under the principal
    -- and the roles of the reply, as long as the requested expiry has not come.
    pub new_keys_work :
        (p : Promises crypto encode_to_string (keygen_of current)) (cond : Conditions)
        (s s' : State) (random : Random) (req : CreateKeyRequest) (id secret principal : Text)
        (roles : List Text) (trusted : List net.IpNet) (r : Request) (later : ℕ)
        → validate floats net crypto env c ≡ none
        → open_key_store c.db_dsn ≡ in_memory
        → DistinctIds c.hmac_secrets
        → current_hmac_secret c.hmac_secrets ≡ some current
        → create_key parsers crypto encode_to_string (keygen_of current) cond s random (some req)
          ≡ (s', created id secret principal roles)
        → get r.headers (codes "X-API-Key") ≡ id ++ b':' ∷ secret
        → expires_before later
            (requested crypto encode_to_string (keygen_of current) parsers cond.now req.expires_at)
          ≡ false
        → (serve_http crypto net
            (add_secrets c.hmac_secrets [])
            (λ i. found_or_absent (get_by_id s'.keys i))
            trusted
            r
            later).reply
          ≡ next (record { principal = principal; key_id = id; roles = roles })
    new_keys_work p cond s s' random req id secret principal roles trusted r later h m d e reply
          header fresh =
        let v = (validate_iff floats net crypto env c).0 h in
        let good = All-current c.hmac_secrets current v.hmac_secrets e in
        create_key-serve_http crypto encode_to_string (keygen_of current) parsers p
          (add_secrets c.hmac_secrets []) cond s s' random req id secret principal roles net trusted
          r later (current-add_secrets c.hmac_secrets current d e)
          (long-ne-nil current.secret good.1) reply header fresh
