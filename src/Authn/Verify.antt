-- ===== src/Authn/Verify.antt =====
-- Authenticate: which secrets are good for a record.
use pdag.Common.{
  ◌≡◌, ◌≢◌, ◌↔◌, ◌⊎◌, inl, inr, refl, sym, ap, ◌∙◌, Bool, true, false, ◌==◌, Text, text_eq,
  text_eq_iff, [], Option, none, some, arith, length, if◌then◌else◌, lookup, Option-cases,
  Bool-cases, ==_iff,
}
use pdag.Store.{KeyRecord}
use pdag.Authn.{
  Crypto, Secrets, AuthError, secret_not_found, secret_empty, invalid_credentials, verify, verdict,
  authenticate, sha256_size,
}

none-ne-some : {o : AuthError} → none ≢ some o
none-ne-some h = cc

true-ne-false : true ≢ false
true-ne-false h = cc

module _ (crypto : Crypto) where
  open crypto use {hmac, decode_string}

  -- The record's hash is that of the secret, under a secret that is configured and not empty.
  pub record Verified (secrets : Secrets) (secret : Text) (rec : KeyRecord) : Type 0 where
    pub hmac_secret : Text
    pub configured : lookup rec.hmac_key_id secrets ≡ some hmac_secret
    pub not_empty : hmac_secret ≢ []
    pub hash : decode_string rec.key_hash ≡ some (hmac hmac_secret secret)
    pub size : length (hmac hmac_secret secret) ≡ sha256_size

  verify_iff :
      (provided stored_hash hmac_secret : Text)
      → ((verify crypto provided stored_hash hmac_secret).0 ≡ some true) ↔ (
          (decode_string stored_hash ≡ some (hmac hmac_secret provided))
          × (length (hmac hmac_secret provided) ≡ sha256_size))
  unfolding verify
  verify_iff provided stored_hash hmac_secret = elim (Option-cases (decode_string stored_hash)) [
    | inl e ↦ rw (e, verify) (λ h. cc, λ h. cc)
    | inr (expected, e) ↦
        rw (e, verify)
          (
            ground (arith, text_eq_iff (hmac hmac_secret provided) expected),
            ground (arith, text_eq_iff (hmac hmac_secret provided) expected),
          )
  ]

  verdict_iff : (match : Option Bool) → (verdict crypto match ≡ none) ↔ (match ≡ some true)
  verdict_iff none = (λ h. cc, λ h. cc)
  verdict_iff (some true) = (λ h. refl, λ h. refl)
  verdict_iff (some false) = (λ h. cc, λ h. cc)

  pub authenticate-configured :
      (secrets : Secrets) (secret : Text) (rec : KeyRecord) (hmac_secret : Text)
      → lookup rec.hmac_key_id secrets ≡ some hmac_secret
      → authenticate crypto secrets secret rec ≡ (
          if text_eq hmac_secret [] then (some secret_empty, []) else (
            verdict crypto (verify crypto secret rec.key_hash hmac_secret).0,
            (verify crypto secret rec.key_hash hmac_secret).1,
          ))
  unfolding authenticate
  authenticate-configured secrets secret rec hmac_secret e = rw (e, authenticate) refl

  configured_lem :
      (secrets : Secrets) (secret : Text) (rec : KeyRecord) (hmac_secret : Text)
      → lookup rec.hmac_key_id secrets ≡ some hmac_secret
      → (authenticate crypto secrets secret rec).0 ≡ none
      → Verified secrets secret rec
  configured_lem secrets secret rec hmac_secret e h =
      let shape = authenticate-configured secrets secret rec hmac_secret e in
      let accepted = verdict_iff (verify crypto secret rec.key_hash hmac_secret).0 in
      let good = verify_iff secret rec.key_hash hmac_secret in
      elim (Bool-cases (text_eq hmac_secret [])) [
        | inl t ↦ absurd (none-ne-some (sym h ∙ ap (λ p. p.0) (rw t at shape)))
        | inr f ↦
            let both = good.0 (accepted.0 (sym (ap (λ p. p.0) (rw f at shape)) ∙ h)) in
            record {
              hmac_secret = hmac_secret;
              configured = e;
              not_empty = λ z. true-ne-false (sym ((text_eq_iff hmac_secret []).1 z) ∙ f);
              hash = both.0;
              size = both.1;
            }
      ]

  -- Authenticate gives no error exactly if the secret is verified.
  pub authenticate_iff :
      (secrets : Secrets) (secret : Text) (rec : KeyRecord)
      → ((authenticate crypto secrets secret rec).0 ≡ none) ↔ Verified secrets secret rec
  unfolding authenticate
  authenticate_iff secrets secret rec = (to, from)
    where
      to : (authenticate crypto secrets secret rec).0 ≡ none → Verified secrets secret rec
      to h = elim (Option-cases (lookup rec.hmac_key_id secrets)) [
        | inl e ↦ absurd (none-ne-some {o = secret_not_found} (sym h ∙ rw (e, authenticate) refl))
        | inr (hmac_secret, e) ↦ configured_lem secrets secret rec hmac_secret e h
      ]

      from : Verified secrets secret rec → (authenticate crypto secrets secret rec).0 ≡ none
      from v =
          let same = text_eq_iff v.hmac_secret [] in
          let differ = v.not_empty in
          let f : text_eq v.hmac_secret [] ≡ false = ground arith in
          let both = (verify_iff secret rec.key_hash v.hmac_secret).1 (v.hash, v.size) in
          rw (authenticate-configured secrets secret rec v.hmac_secret v.configured, f, both) refl

  -- With a secret that is configured and not empty, and a hash of the right length, Authenticate hashes
  -- one message, and has no error but invalid credentials.
  pub authenticate-hashes :
      (secrets : Secrets) (secret : Text) (rec : KeyRecord) (hmac_secret expected : Text)
      → lookup rec.hmac_key_id secrets ≡ some hmac_secret
      → hmac_secret ≢ []
      → decode_string rec.key_hash ≡ some expected
      → length expected ≡ sha256_size
      → (((authenticate crypto secrets secret rec).0 ≡ none)
          ⊎ ((authenticate crypto secrets secret rec).0 ≡ some invalid_credentials))
        × (length (authenticate crypto secrets secret rec).1 ≡ 1)
  unfolding verify
  authenticate-hashes secrets secret rec hmac_secret expected e ne d l =
      let same = text_eq_iff hmac_secret [] in
      let f : text_eq hmac_secret [] ≡ false = ground arith in
      let g : (length expected == sha256_size) ≡ true =
        (==_iff (length expected) sha256_size).1 l in
      rw (authenticate-configured secrets secret rec hmac_secret e, f, d, g, verify)
        (elim (Bool-cases (text_eq (hmac hmac_secret secret) expected)) [
          | inl t ↦ rw t (inl refl, refl)
          | inr n ↦ rw n (inr refl, refl)
        ])
