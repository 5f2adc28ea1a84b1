-- ===== src/Admin/Invariant.antt =====
-- The limits that the admin API sets for a record, and the calls of the store that keep to them.
use pdag.Common.{
  ℕ, ◌≡◌, ◌≢◌, ◌≤◌, inl, inr, Bool, true, Text, text_eq, List, [], ◌∷◌, Option, none, some, all,
  All, length, arith, Bool-cases, Option-cases, lookup, put, erase, subst,
}
use pdag.Store.{
  KeyRecord, Keys, Error, key_not_found, already_exists, create, mutate, delete, delete_expired,
  expires_before,
}
use pdag.Admin.{
  State, Conditions, Reply, audit_mutation, after_write, mutation, max_principal_len,
  max_allowed_cidrs,
}
use pdag.Admin.Roles.{ProperRoles}

-- Maps all of whose entries have a property.
module _ {V : Type 0} (P : Text × V → Type 0) where
  erase-All : (k : Text) (m : List (Text × V)) → All P m → All P (erase k m)
  unfolding erase
  erase-All k [] h = tt
  erase-All k ((j, v) ∷ m) h = ground (arith, erase-All k m h.1)

  put-All : (k : Text) (v : V) (m : List (Text × V)) → P (k, v) → All P m → All P (put k v m)
  unfolding put
  put-All k v m p h = (p, erase-All k m h)

module _ (is_cidr : Text → Bool) where
  -- The limits of the API hold of a record.
  pub record Proper (rec : KeyRecord) : Type 0 where
    pub named : rec.principal ≢ []
    pub principal_len : length rec.principal ≤ max_principal_len
    pub roles : ProperRoles rec.roles
    pub cidrs_len : length rec.allowed_cidrs ≤ max_allowed_cidrs
    pub cidrs : all is_cidr rec.allowed_cidrs ≡ true

  abbrev pub AllProper : Keys → Type 0
  AllProper keys = All (λ e. Proper e.1) keys

  lookup-Proper :
      (k : Text) (m : Keys) (rec : KeyRecord) → AllProper m → lookup k m ≡ some rec → Proper rec
  unfolding lookup
  lookup-Proper k [] rec h e = absurd (ground arith)
  lookup-Proper k ((j, v) ∷ m) rec h e = elim (Bool-cases (text_eq j k)) [
    | inl t ↦ let e' = rw t at e in subst Proper (let q : v ≡ rec = cc in q) h.0
    | inr t ↦ let e' = rw t at e in lookup-Proper k m rec h.1 e'
  ]

  pub mutate-Proper :
      (write : KeyRecord → KeyRecord) (keys : Keys) (id : Text) (now : ℕ)
      → ((rec : KeyRecord) → Proper rec → Proper (record (write rec) { updated_at = now }))
      → AllProper keys
      → AllProper (mutate write keys id now).0
  unfolding mutate
  mutate-Proper write keys id now w h = elim (Option-cases (lookup id keys)) [
    | inl e ↦ rw (e, mutate) h
    | inr (rec, e) ↦
        rw (e, mutate)
          (put-All (λ e. Proper e.1) id _ keys (w rec (lookup-Proper id keys rec h e)) h)
  ]

  pub delete-Proper : (keys : Keys) (id : Text) → AllProper keys → AllProper (delete keys id).0
  unfolding delete
  delete-Proper keys id h = elim (Option-cases (lookup id keys)) [
    | inl e ↦ rw (e, delete) h
    | inr (rec, e) ↦ rw (e, delete) (erase-All (λ e. Proper e.1) id keys h)
  ]

  pub delete_expired-Proper :
      (keys : Keys) (before : ℕ) → AllProper keys → AllProper (delete_expired keys before).0
  unfolding delete_expired
  delete_expired-Proper [] before h = tt
  delete_expired-Proper ((j, rec) ∷ keys) before h =
      elim (Bool-cases (expires_before before rec.expires_at)) [
        | inl e ↦ rw (e, delete_expired) (delete_expired-Proper keys before h.1)
        | inr e ↦ rw (e, delete_expired) (h.0, delete_expired-Proper keys before h.1)
      ]

  pub create-Proper :
      (keys : Keys) (rec : KeyRecord) (now : ℕ)
      → Proper rec
      → AllProper keys
      → AllProper (create keys rec now).0
  unfolding create
  create-Proper keys rec now p h = elim (Option-cases (lookup rec.id keys)) [
    | inr (old, e) ↦ rw (e, create) h
    | inl e ↦
        rw (e, create)
          (put-All (λ e. Proper e.1) rec.id _ keys
            (record {
              named = p.named;
              principal_len = p.principal_len;
              roles = p.roles;
              cidrs_len = p.cidrs_len;
              cidrs = p.cidrs;
            })
            h)
  ]

  pub mutation-Proper :
      (c : Conditions) (s : State) (id action : Text) (reply : Reply) (result : Keys × Option Error)
      → AllProper s.keys
      → AllProper result.0
      → AllProper (mutation c s id action reply result).0.keys
  unfolding mutation after_write audit_mutation
  mutation-Proper c s id action reply (ks, none) h r = elim (Bool-cases c.writes_fail) [
    | inl w ↦ rw (w, mutation) h
    | inr w ↦ elim (Bool-cases c.audit_fails) [
      | inl a ↦ rw (w, a, mutation) r
      | inr a ↦ rw (w, a, mutation) r
    ]
  ]
  mutation-Proper c s id action reply (ks, some key_not_found) h r =
      elim (Bool-cases c.writes_fail) [ inl w ↦ rw (w, mutation) h | inr w ↦ rw (w, mutation) h ]
  mutation-Proper c s id action reply (ks, some already_exists) h r =
      elim (Bool-cases c.writes_fail) [ inl w ↦ rw (w, mutation) h | inr w ↦ rw (w, mutation) h ]
