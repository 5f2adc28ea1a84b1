-- ===== src/Store/Mutation.antt =====
-- What each call does to the map, seen through GetByID: the store as a partial function on key IDs.
use pdag.Common.{
  ℕ, ◌≡◌, Bool, ◌==◌, Text, text_eq, text_eq_iff, List, Option, none, some, arith, if◌then◌else◌,
  Option-cases, inl, inr, lookup, lookup-put, lookup-erase,
}
use pdag.Store.{
  KeyRecord, Error, already_exists, key_not_found, Keys, get_by_id, create, mutate, set_enabled,
  set_roles, set_allowed_cidrs, update_hash, set_expires_at, delete, with_enabled, with_roles,
  with_allowed_cidrs, with_hash, with_expires_at,
}

-- What a write makes of the record found under its key.
abbrev pub written : (KeyRecord → KeyRecord) → ℕ → Option KeyRecord → Option KeyRecord
written write now none = none
written write now (some rec) = some (record (write rec) { updated_at = now })

abbrev pub missing : Option KeyRecord → Option Error
missing none = some key_not_found
missing (some rec) = none

-- A method that writes to a record changes that record alone, and its updated_at, and returns the error
-- not-found exactly if there is none.
pub mutate_lem :
    (write : KeyRecord → KeyRecord) (keys : Keys) (id j : Text) (now : ℕ)
    → (get_by_id (mutate write keys id now).0 j
        ≡ (if text_eq id j then written write now (get_by_id keys id) else get_by_id keys j))
      × ((mutate write keys id now).1 ≡ missing (get_by_id keys id))
unfolding mutate get_by_id
mutate_lem write keys id j now = elim (Option-cases (lookup id keys)) [
  | inl e ↦ (rw (e, mutate) (ground (arith, text_eq_iff id j)), rw (e, mutate))
  | inr (rec, e) ↦ (rw (e, mutate) (rw lookup-put), rw (e, mutate))
]

-- The record that Create adds.
abbrev pub stamped : KeyRecord → ℕ → KeyRecord
stamped rec now = record rec {
  created_at = if rec.created_at == 0 then now else rec.created_at;
  updated_at = now;
}

abbrev pub kept_or_added : KeyRecord → ℕ → Option KeyRecord → KeyRecord
kept_or_added rec now none = stamped rec now
kept_or_added rec now (some old) = old

abbrev pub taken : Option KeyRecord → Option Error
taken none = none
taken (some old) = some already_exists

-- Create leaves all other IDs alone; under its own ID stands then the record that was there before, and
-- the error is already-exists, or, if there was none, the record given, with its times set, and there is
-- no error.
pub create_lem :
    (keys : Keys) (rec : KeyRecord) (j : Text) (now : ℕ)
    → (get_by_id (create keys rec now).0 j ≡ (
        if text_eq rec.id j
        then some (kept_or_added rec now (get_by_id keys rec.id))
        else get_by_id keys j))
      × ((create keys rec now).1 ≡ taken (get_by_id keys rec.id))
unfolding create get_by_id
create_lem keys rec j now = elim (Option-cases (lookup rec.id keys)) [
  | inl e ↦ (rw (e, create) (rw lookup-put), rw (e, create))
  | inr (old, e) ↦ (rw (e, create) (ground (arith, text_eq_iff rec.id j)), rw (e, create))
]

-- Delete takes away one key, and returns the error not-found exactly if it is not there.
pub delete_lem :
    (keys : Keys) (id j : Text)
    → (get_by_id (delete keys id).0 j ≡ (if text_eq id j then none else get_by_id keys j))
      × ((delete keys id).1 ≡ missing (get_by_id keys id))
unfolding delete get_by_id
delete_lem keys id j = elim (Option-cases (lookup id keys)) [
  | inl e ↦ (rw (e, delete) (ground (arith, text_eq_iff id j)), rw (e, delete))
  | inr (rec, e) ↦ (rw (e, delete) (rw lookup-erase), rw (e, delete))
]

-- A method does one write to one record, as `mutate_lem` says.
abbrev pub WritesOne : (KeyRecord → KeyRecord) → (Keys → Text → ℕ → Keys × Option Error) → Type 0
WritesOne write method =
    (keys : Keys) (id j : Text) (now : ℕ)
    → (get_by_id (method keys id now).0 j
        ≡ (if text_eq id j then written write now (get_by_id keys id) else get_by_id keys j))
      × ((method keys id now).1 ≡ missing (get_by_id keys id))

-- SetEnabled, SetRoles, SetAllowedCIDRs, UpdateHash and SetExpiresAt each write their own fields and
-- updated_at of the one record with that ID, leave all other fields and records alone, and return the
-- error not-found, with nothing changed, exactly if there is no such record.
pub setters_write_one :
    (enabled : Bool) (roles cidrs : List Text) (hash hmac : Text) (expiry : Option ℕ)
    → WritesOne (with_enabled enabled) (λ keys id now. set_enabled keys id enabled now)
      × WritesOne (with_roles roles) (λ keys id now. set_roles keys id roles now)
      × WritesOne (with_allowed_cidrs cidrs) (λ keys id now. set_allowed_cidrs keys id cidrs now)
      × WritesOne (with_hash hash hmac) (λ keys id now. update_hash keys id hash hmac now)
      × WritesOne (with_expires_at expiry) (λ keys id now. set_expires_at keys id expiry now)
unfolding set_enabled set_roles set_allowed_cidrs update_hash set_expires_at
setters_write_one enabled roles cidrs hash hmac expiry = (
  mutate_lem (with_enabled enabled),
  mutate_lem (with_roles roles),
  mutate_lem (with_allowed_cidrs cidrs),
  mutate_lem (with_hash hash hmac),
  mutate_lem (with_expires_at expiry),
)
