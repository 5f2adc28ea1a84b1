-- ===== src/Admin/Rotation.antt =====
-- rotateKey: the new secret is good for the key, and nothing else changes.
use pdag.Common.{
  ℕ, ◌≡◌, ◌≢◌, inl, inr, refl, ap, ◌∙◌, subst, Text, text_eq, [], Option, none, some, if◌then◌else◌,
  Bool-cases, Option-cases, lookup, lookup-put,
}
use pdag.Store.{KeyRecord, Keys, update_hash, get_by_id, mutate}
use pdag.Authn.{Crypto, Secrets, found}
use pdag.Authn.Verify.{Verified}
use pdag.Admin.{
  State, Conditions, Reply, error, no_content, one_key, key_list, created, rotated, deleted,
  look_up, mutation, after_write, audit_mutation,
}
use pdag.Admin.Keygen.{Generator, Random, generate_secret, hash}
use pdag.Admin.Handlers.{Parsers, rotate_found, rotate_key}
use pdag.Admin.Issued.{Promises}
use pdag.Admin.Settled.{Found-cases}

look_up-found :
    (c : Conditions) (keys : Keys) (id : Text) (rec : KeyRecord)
    → look_up c keys id ≡ found rec
    → get_by_id keys id ≡ some rec
unfolding look_up
look_up-found c keys id rec h = elim (Bool-cases c.reads_fail) [
  | inl w ↦ let h' = rw (w, look_up) at h in cc
  | inr w ↦ elim (Option-cases (get_by_id keys id)) [
    | inl e ↦ let h' = rw (w, e, look_up) at h in cc
    | inr (r, e) ↦ let h' = rw (w, e, look_up) at h in e ∙ ap some (let q : r ≡ rec = cc in q)
  ]
]

module _ (crypto : Crypto) (encode_to_string : Text → Text) (keygen : Generator)
    (parsers : Parsers) where
  -- The record with the hash of the new secret.
  abbrev pub rehashed : Text → ℕ → KeyRecord → KeyRecord
  rehashed secret now rec = record rec {
    key_hash = hash crypto encode_to_string keygen secret;
    hmac_key_id = keygen.hmac_key_id;
    updated_at = now;
  }

  -- The key had a record, which now has the new hash; the other keys are as they were.
  pub record Rotates (now : ℕ) (before after : Keys) (id secret : Text) : Type 0 where
    pub old : KeyRecord
    pub known : get_by_id before id ≡ some old
    pub keys :
        (j : Text)
        → get_by_id after j
          ≡ (if text_eq id j then some (rehashed secret now old) else get_by_id before j)

  -- A reply with a secret goes with such a change.
  Rotating : ℕ → Text → Keys → State × Reply → Type 0
  Rotating now id before (s, rotated id' secret) = (id' ≡ id) × Rotates now before s.keys id secret
  Rotating now id before (s, error status message) = Unit
  Rotating now id before (s, no_content) = Unit
  Rotating now id before (s, one_key k) = Unit
  Rotating now id before (s, key_list ks) = Unit
  Rotating now id before (s, created i secret principal roles) = Unit
  Rotating now id before (s, deleted n) = Unit

  rotate_found-Rotating :
      (c : Conditions) (s : State) (id : Text) (rec : KeyRecord) (secret : Option Text)
      → get_by_id s.keys id ≡ some rec
      → Rotating c.now id s.keys (rotate_found parsers crypto encode_to_string keygen c s id secret)
  unfolding rotate_found Rotating mutation after_write audit_mutation update_hash mutate get_by_id
  rotate_found-Rotating c s id rec none e = tt
  rotate_found-Rotating c s id rec (some secret) e = elim (Bool-cases c.writes_fail) [
    | inl w ↦ rw (w, mutation) tt
    | inr w ↦
        rw (w, mutation)
          (rw (e, mutate)
            (elim (Bool-cases c.audit_fails) [
              | inl a ↦ rw (a, audit_mutation) tt
              | inr a ↦
                  rw (a, audit_mutation)
                    (refl, record { old = rec; known = e; keys = λ j. lookup-put id j _ s.keys })
            ]))
  ]

  rotate_key-Rotating :
      (c : Conditions) (s : State) (random : Random) (id : Text)
      → Rotating c.now id s.keys (rotate_key parsers crypto encode_to_string keygen c s random id)
  unfolding rotate_key Rotating
  rotate_key-Rotating c s random id = elim (Found-cases (look_up c s.keys id)) [
    | inl e ↦ rw (e, rotate_key) tt
    | inr (inl e) ↦ rw (e, rotate_key) tt
    | inr (inr (rec, e)) ↦
        rw (e, rotate_key)
          (rotate_found-Rotating c s id rec (generate_secret crypto encode_to_string random)
            (look_up-found c s.keys id rec e))
  ]

  -- If rotateKey replies with a secret, the key had a record; the key has then that record with the hash of the
  -- secret and the generator's HMAC key ID, with all its other fields but updated_at, every other key is as it
  -- was, and the secret is good for the record if the generator's secret is not empty and is the one that the
  -- gateway has under its ID.
  pub rotate_key_lem :
      (p : Promises crypto encode_to_string keygen) (secrets : Secrets) (c : Conditions)
      (s s' : State) (random : Random) (id id' secret : Text)
      → lookup keygen.hmac_key_id secrets ≡ some keygen.hmac_secret
      → keygen.hmac_secret ≢ []
      → rotate_key parsers crypto encode_to_string keygen c s random id ≡ (s', rotated id' secret)
      → (id' ≡ id)
        × ((r : Rotates c.now s.keys s'.keys id secret) × Verified crypto secrets secret
              (rehashed secret c.now r.old))
  unfolding Rotating
  rotate_key_lem p secrets c s s' random id id' secret e ne reply =
      let r : (id' ≡ id) × Rotates c.now s.keys s'.keys id secret =
        subst (Rotating c.now id s.keys) reply (rotate_key-Rotating c s random id) in
      (
        r.0,
        (
          r.1,
          record {
            hmac_secret = keygen.hmac_secret;
            configured = e;
            not_empty = ne;
            hash = p.decode-encode (crypto.hmac keygen.hmac_secret secret);
            size = p.size keygen.hmac_secret secret;
          },
        ),
      )
