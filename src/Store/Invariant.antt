-- ===== src/Store/Invariant.antt =====
-- What holds of the map after any calls.
use pdag.Common.{
  ℕ, ◌≡◌, ◌∙◌, refl, Bool, Text, text_eq_iff, List, [], ◌∷◌, Option, some, arith, All, Option-cases,
  inl, inr, lookup, erase, put, Distinct, put-Distinct, erase-Distinct,
}
use pdag.Store.{
  KeyRecord, Keys, new_store, create, mutate, set_enabled, set_roles, set_allowed_cidrs,
  update_hash, set_expires_at, delete, delete_expired, with_enabled, with_roles, with_allowed_cidrs,
  with_hash, with_expires_at,
}
use pdag.Store.Expiry.{lookup-delete_expired}

-- The calls that change the store, with the times at which they read the clock.
pub data Call : Type 0 where
  creates : KeyRecord → ℕ → Call
  enables : Text → Bool → ℕ → Call
  sets_roles sets_cidrs : Text → List Text → ℕ → Call
  updates_hash : Text → Text → Text → ℕ → Call
  sets_expiry : Text → Option ℕ → ℕ → Call
  deletes : Text → Call
  purges : ℕ → Call

unfoldable pub call : Keys → Call → Keys
call keys (creates rec now) = (create keys rec now).0
call keys (enables id enabled now) = (set_enabled keys id enabled now).0
call keys (sets_roles id roles now) = (set_roles keys id roles now).0
call keys (sets_cidrs id cidrs now) = (set_allowed_cidrs keys id cidrs now).0
call keys (updates_hash id hash hmac now) = (update_hash keys id hash hmac now).0
call keys (sets_expiry id expiry now) = (set_expires_at keys id expiry now).0
call keys (deletes id) = (delete keys id).0
call keys (purges before) = (delete_expired keys before).0

unfoldable pub run : Keys → List Call → Keys
run keys [] = keys
run keys (c ∷ cs) = run (call keys c) cs

-- A record stands under its own ID.
abbrev pub IsKeyed : Text × KeyRecord → Type 0
IsKeyed (id, rec) = rec.id ≡ id

pub record Inv (keys : Keys) : Type 0 where
  pub distinct : Distinct keys
  pub keyed : All IsKeyed keys

erase-IsKeyed : (id : Text) (keys : Keys) → All IsKeyed keys → All IsKeyed (erase id keys)
unfolding erase
erase-IsKeyed id [] h = tt
erase-IsKeyed id ((j, rec) ∷ keys) h = ground (arith, erase-IsKeyed id keys h.1)

purge-IsKeyed :
    (keys : Keys) (before : ℕ) → All IsKeyed keys → All IsKeyed (delete_expired keys before).0
unfolding delete_expired
purge-IsKeyed [] before h = tt
purge-IsKeyed ((j, rec) ∷ keys) before h = ground (arith, purge-IsKeyed keys before h.1)

pub purge-Distinct :
    (keys : Keys) (before : ℕ) → Distinct keys → Distinct (delete_expired keys before).0
unfolding delete_expired
purge-Distinct [] before d = tt
purge-Distinct ((j, rec) ∷ keys) before d =
    ground (arith, purge-Distinct keys before d.1, lookup-delete_expired keys before j d.1)

-- A record that is found has the ID under which it is found.
found-keyed :
    (keys : Keys) (id : Text) (rec : KeyRecord)
    → All IsKeyed keys
    → lookup id keys ≡ some rec
    → rec.id ≡ id
unfolding lookup
found-keyed [] id rec h e = cc
found-keyed ((j, r) ∷ keys) id rec h e =
    ground (arith, text_eq_iff j id, found-keyed keys id rec h.1)

put-Inv :
    (keys : Keys) (id : Text) (rec : KeyRecord) → rec.id ≡ id → Inv keys → Inv (put id rec keys)
unfolding put
put-Inv keys id rec e v = record {
  distinct = put-Distinct id rec keys v.distinct;
  keyed = (e, erase-IsKeyed id keys v.keyed);
}

mutate-Inv :
    (write : KeyRecord → KeyRecord) (keys : Keys) (id : Text) (now : ℕ)
    → ((rec : KeyRecord) → (write rec).id ≡ rec.id)
    → Inv keys
    → Inv (mutate write keys id now).0
unfolding mutate
mutate-Inv write keys id now same v = elim (Option-cases (lookup id keys)) [
  | inl e ↦ rw (e, mutate) v
  | inr (rec, e) ↦
      rw (e, mutate) (put-Inv keys id _ (same rec ∙ found-keyed keys id rec v.keyed e) v)
]

create-Inv : (keys : Keys) (rec : KeyRecord) (now : ℕ) → Inv keys → Inv (create keys rec now).0
unfolding create
create-Inv keys rec now v = elim (Option-cases (lookup rec.id keys)) [
  | inl e ↦ rw (e, create) (put-Inv keys rec.id _ refl v)
  | inr (old, e) ↦ rw (e, create) v
]

delete-Inv : (keys : Keys) (id : Text) → Inv keys → Inv (delete keys id).0
unfolding delete
delete-Inv keys id v = elim (Option-cases (lookup id keys)) [
  | inl e ↦ rw (e, delete) v
  | inr (old, e) ↦
      rw (e, delete)
        (record {
          distinct = erase-Distinct id keys v.distinct;
          keyed = erase-IsKeyed id keys v.keyed;
        })
]

pub call-Inv : (keys : Keys) (c : Call) → Inv keys → Inv (call keys c)
unfolding call set_enabled set_roles set_allowed_cidrs update_hash set_expires_at
call-Inv keys (creates rec now) v = create-Inv keys rec now v
call-Inv keys (enables id enabled now) v =
    mutate-Inv (with_enabled enabled) keys id now (λ r. refl) v
call-Inv keys (sets_roles id roles now) v = mutate-Inv (with_roles roles) keys id now (λ r. refl) v
call-Inv keys (sets_cidrs id cidrs now) v =
    mutate-Inv (with_allowed_cidrs cidrs) keys id now (λ r. refl) v
call-Inv keys (updates_hash id hash hmac now) v =
    mutate-Inv (with_hash hash hmac) keys id now (λ r. refl) v
call-Inv keys (sets_expiry id expiry now) v =
    mutate-Inv (with_expires_at expiry) keys id now (λ r. refl) v
call-Inv keys (deletes id) v = delete-Inv keys id v
call-Inv keys (purges before) v = record {
  distinct = purge-Distinct keys before v.distinct;
  keyed = purge-IsKeyed keys before v.keyed;
}

pub run-Inv_from : (keys : Keys) (cs : List Call) → Inv keys → Inv (run keys cs)
unfolding run
run-Inv_from keys [] v = v
run-Inv_from keys (c ∷ cs) v = run-Inv_from (call keys c) cs (call-Inv keys c v)

-- After any calls on a new store no ID stands twice in the map, and each record stands under its own ID.
pub store-Inv : (cs : List Call) → Inv (run new_store cs)
store-Inv cs = run-Inv_from new_store cs (record { distinct = tt; keyed = tt })
