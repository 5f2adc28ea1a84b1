-- ===== src/Admin/Settled.antt =====
-- What a handler of the admin API may leave behind: the store, its events, and the counter of
-- inconsistencies; and that a mutation and a creation keep to it.
use pdag.Common.{
  ℕ, ◌+◌, ◌≡◌, ◌⊎◌, inl, inr, refl, ap, Bool, true, false, Text, text_eq, codes, text_eq_refl, List,
  [], ◌∷◌, Option, none, some, arith, Bool-cases, Option-cases, lookup, erase, put, lookup-put_same,
  ltb, length,
}
use pdag.Store.{KeyRecord, Keys, Error, create, delete, key_not_found, already_exists}
use pdag.Authn.{Crypto, Found, failed, absent, found}
use pdag.Admin.{
  State, Conditions, AuditEvent, Reply, error, no_content, one_key, key_list, created, rotated,
  deleted, look_up, audit_mutation, after_write, mutation, Validated, valid, invalid,
  validate_roles, max_principal_len,
}
use pdag.Admin.Keygen.{Generator, Random, generate_key_id, generate_secret}
use pdag.Admin.Handlers.{
  Parsers, CreateKeyRequest, get_key, Expiry, never, at, rejected, parse_expiry, query_number,
  list_keys, undo_create, after_create, store_key, create_with, generate, create_for, create_key,
}

abbrev pub is_error : Reply → Bool
is_error (error status message) = true
is_error no_content = false
is_error (one_key k) = false
is_error (key_list ks) = false
is_error (created id secret principal roles) = false
is_error (rotated id secret) = false
is_error (deleted n) = false

abbrev pub audit_failed : Reply
audit_failed = error 500 (codes "audit logging failed")

-- One event more, and an answer that is no error.
abbrev pub Audited : State → State × Reply → Type 0
Audited s out =
    ((e : AuditEvent) × (out.0.trail ≡ e ∷ s.trail))
    × (out.0.inconsistency_total ≡ s.inconsistency_total)
    × (is_error out.1 ≡ false)

-- No event, but an inconsistency is counted.
abbrev pub Flagged : State → State × Reply → Type 0
Flagged s out =
    (out.0.trail ≡ s.trail)
    × (out.0.inconsistency_total ≡ s.inconsistency_total + 1)
    × (out.1 ≡ audit_failed)

abbrev pub Settled : State → State × Reply → Type 0
Settled s out = (out.0 ≡ s) ⊎ (Audited s out ⊎ Flagged s out)

pub Found-cases :
    (f : Found) → (f ≡ failed) ⊎ ((f ≡ absent) ⊎ ((rec : KeyRecord) × (f ≡ found rec)))
Found-cases failed = inl refl
Found-cases absent = inr (inl refl)
Found-cases (found rec) = inr (inr (rec, refl))

pub mutation-Settled :
    (c : Conditions) (s : State) (id action : Text) (reply : Reply) (result : Keys × Option Error)
    → is_error reply ≡ false
    → Settled s (mutation c s id action reply result)
unfolding mutation after_write audit_mutation
mutation-Settled c s id action reply (ks, none) h = elim (Bool-cases c.writes_fail) [
  | inl w ↦ rw (w, mutation) (inl refl)
  | inr w ↦ elim (Bool-cases c.audit_fails) [
    | inl a ↦ rw (w, a, mutation) (inr (inr (refl, refl, refl)))
    | inr a ↦ rw (w, a, mutation) (inr (inl (((id, action), refl), refl, h)))
  ]
]
mutation-Settled c s id action reply (ks, some key_not_found) h = elim (Bool-cases c.writes_fail) [
  | inl w ↦ rw (w, mutation) (inl refl)
  | inr w ↦ rw (w, mutation) (inl refl)
]
mutation-Settled c s id action reply (ks, some already_exists) h = elim (Bool-cases c.writes_fail) [
  | inl w ↦ rw (w, mutation) (inl refl)
  | inr w ↦ rw (w, mutation) (inl refl)
]

-- The handlers that only read leave the state as it is.
pub get_key-reads : (c : Conditions) (s : State) (id : Text) → (get_key c s id).0 ≡ s
unfolding get_key
get_key-reads c s id = elim (Found-cases (look_up c s.keys id)) [
  | inl e ↦ rw (e, get_key) (refl)
  | inr (inl e) ↦ rw (e, get_key) (refl)
  | inr (inr (rec, e)) ↦ rw (e, get_key) (refl)
]

pub list_keys-reads :
    (parsers : Parsers) (c : Conditions) (s : State) (limit offset principal role : Text)
    → (list_keys parsers c s limit offset principal role).0 ≡ s
unfolding list_keys
list_keys-reads parsers c s limit offset principal role =
    elim (Option-cases (query_number parsers 1 100 limit)) [
      | inl e ↦ rw (e, list_keys) (refl)
      | inr (l, e) ↦ elim (Option-cases (query_number parsers 0 0 offset)) [
        | inl f ↦ rw (e, list_keys) (rw f (refl))
        | inr (o, f) ↦
            rw (e, list_keys)
              (rw f (elim (Bool-cases c.reads_fail) [ inl w ↦ rw w (refl) | inr w ↦ rw w (refl) ]))
      ]
    ]

erase-absent : {V : Type 0} (k : Text) (m : List (Text × V)) → lookup k m ≡ none → erase k m ≡ m
unfolding lookup erase
erase-absent k [] h = refl
erase-absent k ((j, v) ∷ m) h = ground (arith, erase-absent k m)

erase-put :
    {V : Type 0} (k : Text) (v : V) (m : List (Text × V))
    → lookup k m ≡ none
    → erase k (put k v m) ≡ m
unfolding erase put
erase-put k v m h = ground (arith, text_eq_refl k, erase-absent k m h)

delete-stored :
    (ks : Keys) (id : Text) (rec : KeyRecord)
    → lookup id ks ≡ none
    → (delete (put id rec ks) id).0 ≡ ks
unfolding delete
delete-stored ks id rec h = rw (lookup-put_same id rec ks, delete) (erase-put id rec ks h)

-- A creation that is taken back leaves the map as it was.
delete-create :
    (ks : Keys) (rec : KeyRecord) (now : ℕ)
    → (create ks rec now).1 ≡ none
    → (delete (create ks rec now).0 rec.id).0 ≡ ks
unfolding create
delete-create ks rec now h = elim (Option-cases (lookup rec.id ks)) [
  | inl e ↦ rw (e, create) (delete-stored ks rec.id _ e)
  | inr (old, e) ↦ let clash = rw (e, create) at h in cc
]

module _ (crypto : Crypto) (encode_to_string : Text → Text) (keygen : Generator)
    (parsers : Parsers) where
  after_create-Settled :
      (c : Conditions) (s : State) (rec : KeyRecord) (secret : Text) (result : Keys × Option Error)
      → (result.1 ≡ none → (delete result.0 rec.id).0 ≡ s.keys)
      → Settled s (after_create parsers crypto encode_to_string keygen c s rec secret result)
  unfolding undo_create
  after_create-Settled c s rec secret (ks, some e) h = inl refl
  after_create-Settled c s rec secret (ks, none) h = elim (Bool-cases c.audit_fails) [
    | inr a ↦ rw (a, after_create) (inr (inl (((rec.id, codes "create"), refl), refl, refl)))
    | inl a ↦ elim (Bool-cases c.undo_fails) [
      | inl u ↦ rw (a, after_create) (rw (u, undo_create) (inr (inr (refl, refl, refl))))
      | inr u ↦
          rw (a, after_create)
            (rw (u, undo_create) (inl (ap (λ k. record s { keys = k }) (h refl))))
    ]
  ]

  store_key-Settled :
      (c : Conditions) (s : State) (rec : KeyRecord) (secret : Text)
      → Settled s (store_key parsers crypto encode_to_string keygen c s rec secret)
  unfolding store_key
  store_key-Settled c s rec secret = elim (Bool-cases c.writes_fail) [
    | inl w ↦ rw (w, store_key) (inl refl)
    | inr w ↦
        rw (w, store_key)
          (after_create-Settled c s rec secret (create s.keys rec c.now)
            (delete-create s.keys rec c.now))
  ]

  create_with-Settled :
      (c : Conditions) (s : State) (id secret principal : Text) (roles : List Text)
      (expiry : Expiry)
      → Settled s
          (create_with parsers crypto encode_to_string keygen c s id secret principal roles expiry)
  unfolding create_with
  create_with-Settled c s id secret principal roles (rejected message) = inl refl
  create_with-Settled c s id secret principal roles never = store_key-Settled c s _ secret
  create_with-Settled c s id secret principal roles (at t) = store_key-Settled c s _ secret

  generate-Settled :
      (c : Conditions) (s : State) (random : Random) (req : CreateKeyRequest) (roles : List Text)
      → Settled s (generate parsers crypto encode_to_string keygen c s random req roles)
  unfolding generate
  generate-Settled c s random req roles =
      elim (Option-cases (generate_key_id crypto encode_to_string random)) [
        | inl e ↦ rw (e, generate) (inl refl)
        | inr (id, e) ↦ elim (Option-cases (generate_secret crypto encode_to_string random)) [
          | inl f ↦ rw (e, generate) (rw f (inl refl))
          | inr (secret, f) ↦
              rw (e, generate)
                (rw f (
                  create_with-Settled c s id secret req.principal roles
                    (parse_expiry parsers c.now req.expires_at)))
        ]
      ]

  create_for-Settled :
      (c : Conditions) (s : State) (random : Random) (req : CreateKeyRequest) (v : Validated)
      → Settled s (create_for parsers crypto encode_to_string keygen c s random req v)
  unfolding create_for
  create_for-Settled c s random req (invalid message) = inl refl
  create_for-Settled c s random req (valid roles) = generate-Settled c s random req roles

  pub create_key-Settled :
      (c : Conditions) (s : State) (random : Random) (body : Option CreateKeyRequest)
      → Settled s (create_key parsers crypto encode_to_string keygen c s random body)
  unfolding create_key
  create_key-Settled c s random none = inl refl
  create_key-Settled c s random (some req) = elim (Bool-cases (text_eq req.principal [])) [
    | inl e ↦ rw (e, create_key) (inl refl)
    | inr e ↦ elim (Bool-cases (ltb max_principal_len (length req.principal))) [
      | inl f ↦ rw (e, f, create_key) (inl refl)
      | inr f ↦ rw (e, f, create_key) (create_for-Settled c s random req (validate_roles req.roles))
    ]
  ]
