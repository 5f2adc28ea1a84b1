-- ===== src/Config/Valid.antt =====
-- When the checks of validate pass, each part by itself.
use pdag.Common.{
  ℕ, ◌+◌, ◌≡◌, ◌≢◌, ◌↔◌, ◌⊎◌, ◌≤◌, inl, inr, refl, ap, Bool, true, false, ◌||◌, Text, text_eq,
  text_eq_iff, trim_space, List, [], ◌∷◌, ◌++◌, Option, none, some, length, ltb, is_some, ℤ, pos,
  ltb_ℤ, ◌≤ℤ◌, ◌<ℤ◌, lookup, put, erase, All, arith, Bool-cases,
}
use pdag.Authn.{Crypto}
use pdag.Config.{
  UpstreamBackend, HealthCheckConfig, HmacSecret, CircuitBreaker, PluginConfig, FileInfo,
  Environment,
}
use pdag.Config.Checks.{
  Error, reject, first_error, check_backends, validate_circuit_breaker, check_secrets,
  not_executable, check_stat, check_digest, check_plugin, check_plugins, check_address,
  normalize_listen_addr, check_conflicts, check_proxies, check_health,
}
use pdag.Config.Validate.{when, positive, not_below_zero}

abbrev pub Passes : List (Option Error) → Type 0
Passes checks = All (λ e. e ≡ none) checks

pub first_error_iff : (checks : List (Option Error)) → (first_error checks ≡ none) ↔ Passes checks
unfolding first_error
first_error_iff [] = (λ h. tt, λ h. refl)
first_error_iff (some e ∷ checks) = (λ h. (h, absurd (ground arith)), λ p. p.0)
first_error_iff (none ∷ checks) =
    let rest = first_error_iff checks in (λ h. (refl, rest.0 h), λ p. rest.1 p.1)

-- The checks of two lists, one after the other.
pub Passes-append : (xs ys : List (Option Error)) → Passes (xs ++ ys) ↔ (Passes xs × Passes ys)
Passes-append [] ys = (λ p. (tt, p), λ p. p.1)
Passes-append (x ∷ xs) ys =
    let rest = Passes-append xs ys in
    (λ p. (let r = rest.0 p.1 in ((p.0, r.0), r.1)), λ p. (p.0.0, rest.1 (p.0.1, p.1)))

pub Passes-when :
    (test : Bool) (checks : List (Option Error))
    → Passes (when test checks) ↔ ((test ≡ false) ⊎ Passes checks)
Passes-when true checks = (λ p. inr p, λ s. elim s [ inl e ↦ absurd (ground arith) | inr p ↦ p ])
Passes-when false checks = (λ p. inl refl, λ s. tt)

pub reject_iff : (test : Bool) (e : Error) → (reject test e ≡ none) ↔ (test ≡ false)
reject_iff test e = ground arith

pub positive_iff : (name : Text) (z : ℤ) → (positive name z ≡ none) ↔ (pos 0 <ℤ z)
unfolding ltb_ℤ
positive_iff name z = ground arith

pub not_below_zero_iff : (name : Text) (z : ℤ) → (not_below_zero name z ≡ none) ↔ (pos 0 ≤ℤ z)
unfolding ltb_ℤ
not_below_zero_iff name z = ground arith

-- A breaker's settings: 0 stands for the default.
abbrev pub ValidBreaker : CircuitBreaker → Type 0
ValidBreaker cb =
    (pos 0 ≤ℤ cb.failure_threshold) × (pos 0 ≤ℤ cb.success_threshold) × (pos 0 ≤ℤ cb.cooldown)

pub validate_circuit_breaker_iff :
    (cb : CircuitBreaker) (prefix : Text)
    → Passes (validate_circuit_breaker cb prefix) ↔ ValidBreaker cb
unfolding validate_circuit_breaker ltb_ℤ
validate_circuit_breaker_iff cb prefix = ground arith

abbrev pub ValidBackend : UpstreamBackend → Type 0
ValidBackend b = (b.url ≢ []) × (b.api_key ≢ [])

pub not_empty_iff : (s : Text) → (text_eq s [] ≡ false) ↔ (s ≢ [])
not_empty_iff s = let same = text_eq_iff s [] in (λ h z. ground arith, λ d. ground arith)

pub check_backends_iff :
    (i : ℕ) (bs : List UpstreamBackend) → Passes (check_backends i bs) ↔ All ValidBackend bs
unfolding check_backends
check_backends_iff i [] = (λ h. tt, λ h. tt)
check_backends_iff i (b ∷ bs) =
    let u = not_empty_iff b.url in
    let k = not_empty_iff b.api_key in
    let rest = check_backends_iff (i + 1) bs in
    (
      λ p. (((u.0 ((reject_iff _ _).0 p.0)), k.0 ((reject_iff _ _).0 p.1.0)), rest.0 p.1.1),
      λ v. ((reject_iff _ _).1 (u.1 v.0.0), ((reject_iff _ _).1 (k.1 v.0.1), rest.1 v.1)),
    )

-- 16 bytes at least.
abbrev pub ValidSecret : HmacSecret → Type 0
ValidSecret s = (s.id ≢ []) × (16 ≤ length s.secret)

long-not_empty : (s : Text) → 16 ≤ length s → text_eq s [] ≡ false
unfolding text_eq
long-not_empty [] h = absurd (ground arith)
long-not_empty (c ∷ s) h = refl

secret_checks_iff :
    (s : HmacSecret)
    → (((text_eq s.id [] || text_eq s.secret []) ≡ false) × (ltb (length s.secret) 16 ≡ false))
      ↔ ValidSecret s
secret_checks_iff s =
    let id = not_empty_iff s.id in
    let long = long-not_empty s.secret in
    (
      λ h. (id.0 (ground arith), ground arith),
      λ v. (let i = id.1 v.0 in (ground arith, ground arith)),
    )

pub check_secrets_iff :
    (i : ℕ) (ss : List HmacSecret) → Passes (check_secrets i ss) ↔ All ValidSecret ss
unfolding check_secrets
check_secrets_iff i [] = (λ h. tt, λ h. tt)
check_secrets_iff i (s ∷ ss) =
    let one = secret_checks_iff s in
    let rest = check_secrets_iff (i + 1) ss in
    (
      λ p. (one.0 ((reject_iff _ _).0 p.0, (reject_iff _ _).0 p.1.0), rest.0 p.1.1),
      λ v. (let q = one.1 v.0 in ((reject_iff _ _).1 q.0, ((reject_iff _ _).1 q.1, rest.1 v.1))),
    )

abbrev pub IsCidr : (Text → Bool) → Text → Type 0
IsCidr is_cidr c = is_cidr (trim_space c) ≡ true

pub check_proxies_iff :
    (is_cidr : Text → Bool) (i : ℕ) (cs : List Text)
    → Passes (check_proxies is_cidr i cs) ↔ All (IsCidr is_cidr) cs
unfolding check_proxies
check_proxies_iff is_cidr i [] = (λ h. tt, λ h. tt)
check_proxies_iff is_cidr i (c ∷ cs) =
    let rest = check_proxies_iff is_cidr (i + 1) cs in
    (
      λ p. (let q = (reject_iff _ _).0 p.0 in ground arith, rest.0 p.1),
      λ v. (let q = v.0 in ground arith, rest.1 v.1),
    )

abbrev pub ValidHealth : HealthCheckConfig → Type 0
ValidHealth hc = (pos 0 <ℤ hc.interval) × (pos 0 <ℤ hc.timeout) × (hc.timeout <ℤ hc.interval)

pub check_health_iff : (hc : HealthCheckConfig) → Passes (check_health hc) ↔ ValidHealth hc
unfolding check_health ltb_ℤ
check_health_iff hc = ground arith

-- A plugin is there, is no directory, and may be executed by somebody.
abbrev pub Executable : Option FileInfo → Type 0
Executable what =
    (info : FileInfo) × (what ≡ some info)
    × (info.is_dir ≡ false)
    × (not_executable info.mode ≡ false)

check_stat_iff :
    (name path : Text) (what : Option FileInfo)
    → (check_stat name path what ≡ none) ↔ Executable what
unfolding check_stat
check_stat_iff name path none =
    (λ h. absurd (ground arith), λ e. let q = e.1 in absurd (ground arith))
check_stat_iff name path (some info) = (
  λ h. (info, refl, ground arith, ground arith),
  λ e.
      (let q : info ≡ e.0 = (let r = e.1 in cc) in
        rw (ap (λ i. i.is_dir) q, e.2) (rw (ap (λ i. not_executable i.mode) q, e.3) refl)),
)

differ : (s t : Text) → text_eq s t ≡ false → s ≢ t
differ s t f = let same = text_eq_iff s t in λ z. ground arith

module _ (crypto : Crypto) (env : Environment) where
  -- No digest, or 64 digits that hex takes.
  abbrev pub ValidDigest : Text → Type 0
  ValidDigest sha256 =
      (sha256 ≡ []) ⊎ ((length sha256 ≡ 64) × (is_some (crypto.decode_string sha256) ≡ true))

  check_digest_iff :
      (name sha256 : Text) → (check_digest crypto env name sha256 ≡ none) ↔ ValidDigest sha256
  unfolding check_digest
  check_digest_iff name sha256 =
      let empty = text_eq_iff sha256 [] in
      (
        λ h. elim (Bool-cases (text_eq sha256 [])) [
          | inl e ↦ inl (empty.0 e)
          | inr e ↦ inr (ground arith)
        ],
        λ v. elim v [ inl e ↦ rw (empty.1 e, check_digest) refl | inr (l, d) ↦ ground arith ],
      )

  pub record ValidPlugin (pc : PluginConfig) : Type 0 where
    pub executable : Executable (env.stat pc.path)
    pub breaker : ValidBreaker pc.circuit_breaker
    pub timeout : pos 0 ≤ℤ pc.timeout
    pub digest : ValidDigest pc.sha256

  check_plugin_iff :
      (name : Text) (pc : PluginConfig) → Passes (check_plugin crypto env name pc) ↔ ValidPlugin pc
  unfolding check_plugin
  check_plugin_iff name pc =
      let stat = check_stat_iff name pc.path (env.stat pc.path) in
      let breaker = validate_circuit_breaker_iff pc.circuit_breaker _ in
      let parts = Passes-append (validate_circuit_breaker pc.circuit_breaker _) _ in
      let timeout = not_below_zero_iff _ pc.timeout in
      let digest = check_digest_iff name pc.sha256 in
      (
        λ p.
            (let q = parts.0 p.1 in
              record {
                executable = stat.0 p.0;
                breaker = breaker.0 q.0;
                timeout = timeout.0 q.1.0;
                digest = digest.0 q.1.1.0;
              }),
        λ v. (
          stat.1 v.executable,
          parts.1 (breaker.1 v.breaker, (timeout.1 v.timeout, (digest.1 v.digest, tt))),
        ),
      )

  pub check_plugins_iff :
      (plugins : List (Text × PluginConfig))
      → Passes (check_plugins crypto env plugins) ↔ All (λ e. ValidPlugin e.1) plugins
  unfolding check_plugins
  check_plugins_iff [] = (λ h. tt, λ h. tt)
  check_plugins_iff ((name, pc) ∷ plugins) =
      let parts =
        Passes-append (check_plugin crypto env name pc) (check_plugins crypto env plugins) in
      let one = check_plugin_iff name pc in
      let rest = check_plugins_iff plugins in
      (λ p. (let q = parts.0 p in (one.0 q.0, rest.0 q.1)), λ v. parts.1 (one.1 v.0, rest.1 v.1))

  pub check_address_iff :
      (name value : Text)
      → (check_address crypto env name value ≡ none) ↔ (is_some (env.split_host_port value) ≡ true)
  unfolding check_address
  check_address_iff name value = ground arith

  -- Three addresses that are pairwise different when they are normalized.
  abbrev pub Apart : Text → Text → Text → Type 0
  Apart a b c =
      (normalize_listen_addr crypto env a ≢ normalize_listen_addr crypto env b)
      × (normalize_listen_addr crypto env a ≢ normalize_listen_addr crypto env c)
      × (normalize_listen_addr crypto env b ≢ normalize_listen_addr crypto env c)

  pub check_conflicts_iff :
      (k a l b m c : Text)
      → (check_conflicts crypto env ((k, a) ∷ (l, b) ∷ (m, c) ∷ []) [] ≡ none) ↔ Apart a b c
  unfolding check_conflicts lookup put erase
  check_conflicts_iff k a l b m c =
      let x = normalize_listen_addr crypto env a in
      let y = normalize_listen_addr crypto env b in
      let z = normalize_listen_addr crypto env c in
      elim (Bool-cases (text_eq x y)) [
        | inl p ↦
            rw (p, check_conflicts)
              (λ h. absurd (ground arith), λ d. absurd (d.0 ((text_eq_iff x y).0 p)))
        | inr p ↦ elim (Bool-cases (text_eq y z)) [
          | inl q ↦
              rw (p, q, check_conflicts)
                (λ h. absurd (ground arith), λ d. absurd (d.2 ((text_eq_iff y z).0 q)))
          | inr q ↦ elim (Bool-cases (text_eq x z)) [
            | inl r ↦
                rw (p, q, check_conflicts)
                  (rw (p, erase)
                    (rw r (λ h. absurd (ground arith), λ d. absurd (d.1 ((text_eq_iff x z).0 r)))))
            | inr r ↦
                rw (p, q, check_conflicts)
                  (rw (p, erase)
                    (rw r (λ h. (differ x y p, differ x z r, differ y z q), λ d. refl)))
          ]
        ]
      ]
