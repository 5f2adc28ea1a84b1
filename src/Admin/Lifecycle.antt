-- ===== src/Admin/Lifecycle.antt =====
-- createKey and the authentication of requests together: a key that is handed out can be used.
use pdag.Common.{
  ap, ℕ, ◌≡◌, ◌≢◌, inl, inr, refl, subst, false, Text, text_eq, codes, ◌++◌, List, [], ◌∷◌, Option,
  some, Bool-cases, Option-cases, lookup, lookup-put_same, ltb, length,
}
use pdag.Store.{Keys, create, get_by_id, expires_before}
use pdag.Store.Mutation.{stamped}
use pdag.Header.{get}
use pdag.ClientIp.{Net, Request}
use pdag.Authn.{Found, Crypto, Secrets, next, serve_http}
use pdag.Admin.{
  State, Conditions, Reply, error, no_content, one_key, key_list, created, rotated, deleted,
  Validated, valid, invalid, validate_roles, max_principal_len, found_or_absent,
}
use pdag.Admin.Keygen.{Generator, Random}
use pdag.Admin.Handlers.{
  Parsers, CreateKeyRequest, Expiry, never, at, rejected, parse_expiry, expiry_of, new_record,
  after_create, store_key, create_with, generate, create_for, create_key, undo_create,
}
use pdag.Admin.Issued.{Issued, Promises, Issued-serve_http}

module _ (crypto : Crypto) (encode_to_string : Text → Text) (keygen : Generator)
    (parsers : Parsers) where
  -- GetByID of the in-memory store.
  abbrev finds : Keys → Text → Found
  finds keys id = found_or_absent (get_by_id keys id)

  -- A reply with a key goes with a record for the key.
  Issues : Option ℕ → State × Reply → Type 0
  Issues expiry (s, created id secret principal roles) =
      Issued crypto encode_to_string keygen expiry (finds s.keys) id secret principal roles
  Issues expiry (s, error status message) = Unit
  Issues expiry (s, no_content) = Unit
  Issues expiry (s, one_key k) = Unit
  Issues expiry (s, key_list ks) = Unit
  Issues expiry (s, rotated id secret) = Unit
  Issues expiry (s, deleted n) = Unit

  store_key-Issues :
      (c : Conditions) (s : State) (id secret principal : Text) (roles : List Text)
      (expiry : Expiry) (id_digits secret_digits : Text)
      → id ≡ codes "k_" ++ encode_to_string id_digits
      → secret ≡ codes "pdg_" ++ encode_to_string secret_digits
      → Issues (expiry_of expiry) (
          store_key parsers crypto encode_to_string keygen c s
            (new_record parsers crypto encode_to_string keygen c.now id secret principal roles
              expiry)
            secret)
  unfolding store_key Issues create undo_create get_by_id
  store_key-Issues c s id secret principal roles expiry id_digits secret_digits e f =
      elim (Bool-cases c.writes_fail) [
        | inl w ↦ rw (w, store_key) tt
        | inr w ↦ elim (Option-cases (lookup id s.keys)) [
          | inr (old, l) ↦ rw (w, store_key) (rw (l, create) tt)
          | inl l ↦ elim (Bool-cases c.audit_fails) [
            | inl a ↦ rw (w, store_key) (rw (l, create) (rw (a, after_create) tt))
            | inr a ↦
                rw (w, store_key)
                  (rw (l, create)
                    (rw (a, after_create)
                      (record {
                        rec =
                            stamped
                              (new_record parsers crypto encode_to_string keygen c.now id secret
                                principal roles expiry)
                              c.now;
                        known = ap found_or_absent (lookup-put_same id _ s.keys);
                        key_hash = refl;
                        hmac_key_id = refl;
                        who = refl;
                        enabled = refl;
                        no_cidrs = refl;
                        expires_at = refl;
                        id_digits = id_digits;
                        id_form = e;
                        secret_digits = secret_digits;
                        secret_form = f;
                      })))
          ]
        ]
      ]

  create_with-Issues :
      (c : Conditions) (s : State) (id secret principal : Text) (roles : List Text)
      (expiry : Expiry) (id_digits secret_digits : Text)
      → id ≡ codes "k_" ++ encode_to_string id_digits
      → secret ≡ codes "pdg_" ++ encode_to_string secret_digits
      → Issues
          (expiry_of expiry)
          (create_with parsers crypto encode_to_string keygen c s id secret principal roles expiry)
  unfolding create_with Issues
  create_with-Issues c s id secret principal roles (rejected message) n m e f = tt
  create_with-Issues c s id secret principal roles never n m e f =
      store_key-Issues c s id secret principal roles never n m e f
  create_with-Issues c s id secret principal roles (at t) n m e f =
      store_key-Issues c s id secret principal roles (at t) n m e f

  -- The expiry that a request asks for.
  abbrev pub requested : ℕ → Option Text → Option ℕ
  requested now expires_at = expiry_of (parse_expiry parsers now expires_at)

  generate-Issues :
      (c : Conditions) (s : State) (random : Random) (req : CreateKeyRequest) (roles : List Text)
      → Issues
          (requested c.now req.expires_at)
          (generate parsers crypto encode_to_string keygen c s random req roles)
  unfolding generate Issues
  generate-Issues c s random req roles = elim (Option-cases random.id_bytes) [
    | inl e ↦ rw (e, generate) tt
    | inr (n, e) ↦ elim (Option-cases random.secret_bytes) [
      | inl f ↦ rw (e, generate) (rw f tt)
      | inr (m, f) ↦
          rw (e, generate)
            (rw f (
              create_with-Issues c s _ _ req.principal roles
                (parse_expiry parsers c.now req.expires_at) n m refl refl))
    ]
  ]

  create_for-Issues :
      (c : Conditions) (s : State) (random : Random) (req : CreateKeyRequest) (v : Validated)
      → Issues
          (requested c.now req.expires_at)
          (create_for parsers crypto encode_to_string keygen c s random req v)
  unfolding create_for Issues
  create_for-Issues c s random req (invalid message) = tt
  create_for-Issues c s random req (valid roles) = generate-Issues c s random req roles

  create_key-Issues :
      (c : Conditions) (s : State) (random : Random) (req : CreateKeyRequest)
      → Issues
          (requested c.now req.expires_at)
          (create_key parsers crypto encode_to_string keygen c s random (some req))
  unfolding create_key Issues
  create_key-Issues c s random req = elim (Bool-cases (text_eq req.principal [])) [
    | inl e ↦ rw (e, create_key) tt
    | inr e ↦ elim (Bool-cases (ltb max_principal_len (length req.principal))) [
      | inl f ↦ rw (e, f, create_key) tt
      | inr f ↦ rw (e, f, create_key) (create_for-Issues c s random req (validate_roles req.roles))
    ]
  ]

  -- If the generator's secret is not empty and is the one that the gateway has under the generator's ID, a
  -- request whose X-API-Key is the ID and the secret of a reply of createKey, with a colon between, is passed on
  -- under the principal and the roles of the reply, from any address, as long as the requested expiry has not
  -- come.
  pub create_key-serve_http :
      (p : Promises crypto encode_to_string keygen) (secrets : Secrets) (c : Conditions)
      (s s' : State) (random : Random) (req : CreateKeyRequest) (id secret principal : Text)
      (roles : List Text) (net : Net) (trusted : List net.IpNet) (r : Request) (later : ℕ)
      → lookup keygen.hmac_key_id secrets ≡ some keygen.hmac_secret
      → keygen.hmac_secret ≢ []
      → create_key parsers crypto encode_to_string keygen c s random (some req)
        ≡ (s', created id secret principal roles)
      → get r.headers (codes "X-API-Key") ≡ id ++ b':' ∷ secret
      → expires_before later (requested c.now req.expires_at) ≡ false
      → (serve_http crypto net secrets
          (λ i. found_or_absent (get_by_id s'.keys i))
          trusted
          r
          later).reply
        ≡ next (record { principal = principal; key_id = id; roles = roles })
  unfolding Issues
  create_key-serve_http p secrets c s s' random req id secret principal roles net trusted r later e
        ne reply header fresh =
      Issued-serve_http crypto encode_to_string keygen p secrets (requested c.now req.expires_at)
        (finds s'.keys) id secret principal roles net trusted r later e ne
        (subst (Issues (requested c.now req.expires_at)) reply (create_key-Issues c s random req))
        header fresh
