-- ===== src/Admin/Creation.antt =====
-- createKey keeps to the limits of the API.
use pdag.Common.{
  ℕ, ◌≡◌, ◌≢◌, ◌≤◌, inl, inr, refl, sym, Text, text_eq, text_eq_iff, List, [], Option, none, some,
  length, ltb, arith, Bool-cases, Option-cases, subst,
}
use pdag.Store.{KeyRecord, Keys, Error, create}
use pdag.Authn.{Crypto}
use pdag.Admin.{State, Conditions, Validated, valid, invalid, validate_roles, max_principal_len}
use pdag.Admin.Keygen.{Generator, Random, generate_key_id, generate_secret}
use pdag.Admin.Handlers.{
  Parsers, CreateKeyRequest, Expiry, never, at, rejected, parse_expiry, undo_create, after_create,
  store_key, create_with, generate, create_for, create_key, new_record,
}
use pdag.Admin.Roles.{ProperRoles, validate_roles_iff}
use pdag.Admin.Invariant.{Proper, AllProper, delete-Proper, create-Proper}

module _ (crypto : Crypto) (encode_to_string : Text → Text) (keygen : Generator)
    (parsers : Parsers) where
  open parsers use {is_cidr}

  -- The record that createKey makes keeps to the limits.
  new_record-Proper :
      (now : ℕ) (id secret principal : Text) (roles : List Text) (expiry : Expiry)
      → principal ≢ []
      → length principal ≤ max_principal_len
      → ProperRoles roles
      → Proper is_cidr
          (new_record parsers crypto encode_to_string keygen now id secret principal roles expiry)
  new_record-Proper now id secret principal roles expiry n l r = record {
    named = n;
    principal_len = l;
    roles = r;
    cidrs_len = omega arith;
    cidrs = refl;
  }

  after_create-Proper :
      (c : Conditions) (s : State) (rec : KeyRecord) (secret : Text) (result : Keys × Option Error)
      → AllProper is_cidr s.keys
      → AllProper is_cidr result.0
      → AllProper is_cidr
          (after_create parsers crypto encode_to_string keygen c s rec secret result).0.keys
  unfolding undo_create
  after_create-Proper c s rec secret (ks, some e) h r = h
  after_create-Proper c s rec secret (ks, none) h r = elim (Bool-cases c.audit_fails) [
    | inr a ↦ rw (a, after_create) r
    | inl a ↦ elim (Bool-cases c.undo_fails) [
      | inl u ↦ rw (a, after_create) (rw (u, undo_create) r)
      | inr u ↦ rw (a, after_create) (rw (u, undo_create) (delete-Proper is_cidr ks rec.id r))
    ]
  ]

  store_key-Proper :
      (c : Conditions) (s : State) (rec : KeyRecord) (secret : Text)
      → Proper is_cidr rec
      → AllProper is_cidr s.keys
      → AllProper is_cidr (store_key parsers crypto encode_to_string keygen c s rec secret).0.keys
  unfolding store_key
  store_key-Proper c s rec secret p h = elim (Bool-cases c.writes_fail) [
    | inl w ↦ rw (w, store_key) h
    | inr w ↦
        rw (w, store_key)
          (after_create-Proper c s rec secret (create s.keys rec c.now) h
            (create-Proper is_cidr s.keys rec c.now p h))
  ]

  create_with-Proper :
      (c : Conditions) (s : State) (id secret principal : Text) (roles : List Text)
      (expiry : Expiry)
      → principal ≢ []
      → length principal ≤ max_principal_len
      → ProperRoles roles
      → AllProper is_cidr s.keys
      → AllProper is_cidr
          (create_with parsers crypto encode_to_string keygen c s id secret principal roles
            expiry).0.keys
  unfolding create_with
  create_with-Proper c s id secret principal roles (rejected message) n l r h = h
  create_with-Proper c s id secret principal roles never n l r h =
      store_key-Proper c s _ secret (new_record-Proper c.now id secret principal roles never n l r)
        h
  create_with-Proper c s id secret principal roles (at t) n l r h =
      store_key-Proper c s _ secret (new_record-Proper c.now id secret principal roles (at t) n l r)
        h

  generate-Proper :
      (c : Conditions) (s : State) (random : Random) (req : CreateKeyRequest) (roles : List Text)
      → req.principal ≢ []
      → length req.principal ≤ max_principal_len
      → ProperRoles roles
      → AllProper is_cidr s.keys
      → AllProper is_cidr
          (generate parsers crypto encode_to_string keygen c s random req roles).0.keys
  unfolding generate
  generate-Proper c s random req roles n l r h =
      elim (Option-cases (generate_key_id crypto encode_to_string random)) [
        | inl e ↦ rw (e, generate) h
        | inr (id, e) ↦ elim (Option-cases (generate_secret crypto encode_to_string random)) [
          | inl f ↦ rw (e, generate) (rw f h)
          | inr (secret, f) ↦
              rw (e, generate)
                (rw f (
                  create_with-Proper c s id secret req.principal roles
                    (parse_expiry parsers c.now req.expires_at) n l r h))
        ]
      ]

  pub checked-ProperRoles :
      (roles cleaned : List Text) → validate_roles roles ≡ valid cleaned → ProperRoles cleaned
  checked-ProperRoles roles cleaned e =
      let r = (validate_roles_iff roles cleaned).0 e in subst ProperRoles (sym r.0) r.1

  create_for-Proper :
      (c : Conditions) (s : State) (random : Random) (req : CreateKeyRequest) (roles : List Text)
      (v : Validated)
      → validate_roles roles ≡ v
      → req.principal ≢ []
      → length req.principal ≤ max_principal_len
      → AllProper is_cidr s.keys
      → AllProper is_cidr
          (create_for parsers crypto encode_to_string keygen c s random req v).0.keys
  unfolding create_for
  create_for-Proper c s random req roles (invalid message) e n l h = h
  create_for-Proper c s random req roles (valid cleaned) e n l h =
      generate-Proper c s random req cleaned n l (checked-ProperRoles roles cleaned e) h

  pub create_key-Proper :
      (c : Conditions) (s : State) (random : Random) (body : Option CreateKeyRequest)
      → AllProper is_cidr s.keys
      → AllProper is_cidr (create_key parsers crypto encode_to_string keygen c s random body).0.keys
  unfolding create_key
  create_key-Proper c s random none h = h
  create_key-Proper c s random (some req) h = elim (Bool-cases (text_eq req.principal [])) [
    | inl e ↦ rw (e, create_key) h
    | inr e ↦ elim (Bool-cases (ltb max_principal_len (length req.principal))) [
      | inl f ↦ rw (e, f, create_key) h
      | inr f ↦
          rw (e, f, create_key)
            (create_for-Proper c s random req req.roles (validate_roles req.roles) refl
              (λ z. ground (arith, text_eq_iff req.principal [])) (ground arith) h)
    ]
  ]
