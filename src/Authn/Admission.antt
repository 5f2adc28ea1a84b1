-- ===== src/Authn/Admission.antt =====
-- Which requests are passed on, and what the answers to the others give away.
use pdag.Common.{
  ℕ, ◌≡◌, ◌≢◌, ◌↔◌, ◌⊎◌, inl, inr, refl, sym, ap, ◌∙◌, true, false, ◌||◌, Text, codes, text_eq,
  text_eq_iff, List, [], ◌∷◌, Option, none, some, arith, length, lookup, Option-cases,
}
use pdag.Header.{get}
use pdag.ClientIp.{Net, Request, client_ip}
use pdag.Store.{KeyRecord, expires_before}
use pdag.Authn.{
  Crypto, Secrets, Macs, AuthError, secret_not_found, secret_empty, undecodable_hash,
  invalid_credentials, Found, failed, absent, found, Identity, Reply, error, next, Outcome, cut,
  identity, authenticate, is_allowed, check_source, check_key, after_secret, answer, serve_http,
  sha256_size,
}
use pdag.Authn.Verify.{Verified, authenticate_iff, authenticate-hashes}

-- The answer is the next handler's, for this identity.
abbrev pub IsNext : Reply → Identity → Type 0
IsNext reply who = reply ≡ next who

ne-nil : (s : Text) → s ≢ [] → text_eq s [] ≡ false
ne-nil s d = let same = text_eq_iff s [] in ground arith

cut-not_empty : (s : Text) (p : Text × Text) → cut b':' s ≡ some p → text_eq s [] ≡ false
unfolding cut text_eq
cut-not_empty [] p h = cc
cut-not_empty (c ∷ s) p h = refl

module _ (crypto : Crypto) (net : Net) (trusted : List net.IpNet) (req : Request) (now : ℕ) where
  -- The key has no allowlist, or the client's address is in it.
  abbrev pub SourceAllowed : KeyRecord → Type 0
  SourceAllowed rec =
      (rec.allowed_cidrs ≡ [])
      ⊎ ((ip : net.Ip) × (client_ip net trusted req ≡ some ip)
          × (is_allowed crypto net rec.allowed_cidrs ip ≡ true))

  pub check_source_iff :
      (rec : KeyRecord) (macs : Macs) (who : Identity)
      → ((check_source crypto net trusted req rec macs).reply ≡ next who)
        ↔ ((who ≡ identity rec) × SourceAllowed rec)
  unfolding check_source
  check_source_iff rec macs who = elim (Option-cases (client_ip net trusted req)) [
    | inl e ↦ rw (e, check_source) (ground arith)
    | inr (ip, e) ↦ rw (e, check_source) (ground arith)
  ]

  check_key_iff :
      (rec : KeyRecord) (macs : Macs) (who : Identity)
      → ((check_key crypto net trusted req now rec macs).reply ≡ next who) ↔ (
          (rec.enabled ≡ true)
          × (expires_before now rec.expires_at ≡ false)
          × (who ≡ identity rec)
          × SourceAllowed rec)
  unfolding check_key
  check_key_iff rec macs who = ground (arith, check_source_iff rec macs who)

  -- The request is passed on as the record's, or refused as every other.
  abbrev pub Alike : KeyRecord → Macs → Outcome → Type 0
  Alike rec macs o =
      ((o.reply ≡ next (identity rec)) ⊎ (o.reply ≡ error 401 (codes "invalid credentials")))
      × (o.macs ≡ macs)

  -- The record lets the request pass.
  abbrev pub Passes : KeyRecord → Identity → Type 0
  Passes rec who =
      (rec.enabled ≡ true)
      × (expires_before now rec.expires_at ≡ false)
      × (who ≡ identity rec)
      × SourceAllowed rec

  after_secret_iff :
      (rec : KeyRecord) (result : Option AuthError × Macs) (who : Identity)
      → ((after_secret crypto net trusted req now rec result).reply ≡ next who)
        ↔ ((result.0 ≡ none) × Passes rec who)
  unfolding after_secret
  after_secret_iff rec (none, macs) who =
      let key = check_key_iff rec macs who in (λ h. (refl, key.0 h), λ p. key.1 p.1)
  after_secret_iff rec (some invalid_credentials, macs) who = (λ h. cc, λ p. let e = p.0 in cc)
  after_secret_iff rec (some secret_not_found, macs) who = (λ h. cc, λ p. let e = p.0 in cc)
  after_secret_iff rec (some secret_empty, macs) who = (λ h. cc, λ p. let e = p.0 in cc)
  after_secret_iff rec (some undecodable_hash, macs) who = (λ h. cc, λ p. let e = p.0 in cc)

  check_source-Alike :
      (rec : KeyRecord) (macs : Macs)
      → Alike rec macs (check_source crypto net trusted req rec macs)
  unfolding check_source
  check_source-Alike rec macs = elim (Option-cases (client_ip net trusted req)) [
    | inl e ↦ rw (e, check_source) (ground arith)
    | inr (ip, e) ↦ rw (e, check_source) (ground arith)
  ]

  check_key-Alike :
      (rec : KeyRecord) (macs : Macs)
      → Alike rec macs (check_key crypto net trusted req now rec macs)
  unfolding check_key
  check_key-Alike rec macs = ground (arith, check_source-Alike rec macs)

  after_secret-Alike :
      (rec : KeyRecord) (result : Option AuthError × Macs)
      → (result.0 ≡ none) ⊎ (result.0 ≡ some invalid_credentials)
      → Alike rec result.1 (after_secret crypto net trusted req now rec result)
  unfolding after_secret
  after_secret-Alike rec (none, macs) h = check_key-Alike rec macs
  after_secret-Alike rec (some invalid_credentials, macs) h = (inr refl, refl)
  after_secret-Alike rec (some secret_not_found, macs) h = ground arith
  after_secret-Alike rec (some secret_empty, macs) h = ground arith
  after_secret-Alike rec (some undecodable_hash, macs) h = ground arith

  module _ (secrets : Secrets) where
    answer-next :
        (secret : Text) (what : Found) (who : Identity)
        → (answer crypto net secrets trusted req now secret what).reply ≡ next who
        → (rec : KeyRecord) × ((what ≡ found rec)
            × Verified crypto secrets secret rec
            × Passes rec who)
    unfolding answer
    answer-next secret failed who h = cc
    answer-next secret absent who h = cc
    answer-next secret (found rec) who h =
        let both = (after_secret_iff rec (authenticate crypto secrets secret rec) who).0 h in
        (rec, (refl, (authenticate_iff crypto secrets secret rec).0 both.0, both.1))

    next-answer :
        (secret : Text) (rec : KeyRecord) (who : Identity)
        → Verified crypto secrets secret rec
        → Passes rec who
        → (answer crypto net secrets trusted req now secret (found rec)).reply ≡ next who
    unfolding answer
    next-answer secret rec who v p =
        (after_secret_iff rec (authenticate crypto secrets secret rec) who).1
          ((authenticate_iff crypto secrets secret rec).1 v, p)

    -- Why a request passes: the key and the secret in its header, and the record of the key.
    pub record Admitted (get_by_id : Text → Found) (who : Identity) : Type 0 where
      pub key_id : Text
      pub secret : Text
      pub header : cut b':' (get req.headers (codes "X-API-Key")) ≡ some (key_id, secret)
      pub named : key_id ≢ []
      pub given : secret ≢ []
      pub rec : KeyRecord
      pub known : get_by_id key_id ≡ found rec
      pub verified : Verified crypto secrets secret rec
      pub passes : Passes rec who

    module _ (get_by_id : Text → Found) where
      abbrev api_key : Text
      api_key = get req.headers (codes "X-API-Key")

      -- An answer that comes from a record is that of a header with a key and a secret.
      serve_http-cut :
          (key_id secret : Text)
          → cut b':' api_key ≡ some (key_id, secret)
          → key_id ≢ []
          → secret ≢ []
          → serve_http crypto net secrets get_by_id trusted req now
            ≡ answer crypto net secrets trusted req now secret (get_by_id key_id)
      unfolding serve_http
      serve_http-cut key_id secret e named given =
          let not_empty : text_eq api_key [] ≡ false = cut-not_empty api_key (key_id, secret) e in
          let k : text_eq key_id [] ≡ false = ne-nil key_id named in
          let s : text_eq secret [] ≡ false = ne-nil secret given in
          rw (not_empty, e, k, s, serve_http) refl

      refused :
          (who : Identity)
          → cut b':' api_key ≡ none
          → (serve_http crypto net secrets get_by_id trusted req now).reply ≢ next who
      unfolding serve_http
      refused who e = rw (e, serve_http) (λ h. ground arith)

      empty_part :
          (key_id secret : Text) (who : Identity)
          → cut b':' api_key ≡ some (key_id, secret)
          → (text_eq key_id [] || text_eq secret []) ≡ true
          → (serve_http crypto net secrets get_by_id trusted req now).reply ≢ next who
      unfolding serve_http
      empty_part key_id secret who e t = rw (e, t, serve_http) (λ h. ground arith)

      named_and_given :
          (key_id secret : Text) (who : Identity)
          → cut b':' api_key ≡ some (key_id, secret)
          → (serve_http crypto net secrets get_by_id trusted req now).reply ≡ next who
          → (key_id ≢ []) × (secret ≢ [])
      named_and_given key_id secret who e h =
          let split = empty_part key_id secret who e in
          let k = text_eq_iff key_id [] in
          let s = text_eq_iff secret [] in (λ z. ground arith, λ z. ground arith)

      -- The handler passes a request to the next one, under an identity, exactly if its header names a
      -- key and a secret, the store has a record for the key, the record's hash is that of the secret
      -- under a secret that is configured and not empty, the key is enabled and not expired, the client's
      -- address is known and in the allowlist unless that is empty, and the identity is the record's.
      pub serve_http_iff :
          (who : Identity)
          → ((serve_http crypto net secrets get_by_id trusted req now).reply ≡ next who)
            ↔ Admitted get_by_id who
      serve_http_iff who = (to, from)
        where
          to :
              (serve_http crypto net secrets get_by_id trusted req now).reply ≡ next who
              → Admitted get_by_id who
          to h = elim (Option-cases (cut b':' api_key)) [
            | inl e ↦ absurd (refused who e h)
            | inr ((key_id, secret), e) ↦
                let parts = named_and_given key_id secret who e h in
                let shape = serve_http-cut key_id secret e parts.0 parts.1 in
                let behind =
                  answer-next secret (get_by_id key_id) who (sym (ap (λ o. o.reply) shape) ∙ h) in
                record {
                  key_id = key_id;
                  secret = secret;
                  header = e;
                  named = parts.0;
                  given = parts.1;
                  rec = behind.0;
                  known = behind.1.0;
                  verified = behind.1.1;
                  passes = behind.1.2;
                }
          ]

          from :
              Admitted get_by_id who
              → (serve_http crypto net secrets get_by_id trusted req now).reply ≡ next who
          from a =
              rw (serve_http-cut a.key_id a.secret a.header a.named a.given, a.known)
                (next-answer a.secret a.rec who a.verified a.passes)

    -- If the HMAC secret of a record is configured and not empty, and the record's hash has the length of
    -- a digest, a request with that key is passed on under the record's identity, or it gets the answer
    -- that it would get for a key that does not exist; either way as many messages are hashed.
    pub rejections_alike :
        (secret : Text) (rec : KeyRecord) (hmac_secret expected : Text)
        → lookup rec.hmac_key_id secrets ≡ some hmac_secret
        → hmac_secret ≢ []
        → crypto.decode_string rec.key_hash ≡ some expected
        → length expected ≡ sha256_size
        → (((answer crypto net secrets trusted req now secret (found rec)).reply
              ≡ next (identity rec))
            ⊎ ((answer crypto net secrets trusted req now secret (found rec)).reply
                ≡ (answer crypto net secrets trusted req now secret absent).reply))
          × (length (answer crypto net secrets trusted req now secret (found rec)).macs
              ≡ length (answer crypto net secrets trusted req now secret absent).macs)
    unfolding answer
    rejections_alike secret rec hmac_secret expected e ne d l =
        let result = authenticate crypto secrets secret rec in
        let hashes = authenticate-hashes crypto secrets secret rec hmac_secret expected e ne d l in
        let same = after_secret-Alike rec result hashes.0 in (same.0, ap length same.1 ∙ hashes.1)
