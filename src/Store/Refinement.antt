-- ===== src/Store/Refinement.antt =====
-- The store as a partial function from IDs to records: what its callers rely on.
use pdag.Common.{
  ℕ, ◌==◌, ◌≡◌, refl, ap, ◌∙◌, Bool, true, false, lookup, Text, text_eq, List, [], ◌∷◌, Option,
  none, some, ltb, if◌then◌else◌,
}
use pdag.Store.{
  KeyRecord, Keys, Error, already_exists, key_not_found, new_store, expires_before, get_by_id,
  create, set_enabled, set_roles, set_allowed_cidrs, update_hash, set_expires_at, delete,
  with_enabled, with_roles, with_allowed_cidrs, with_hash, with_expires_at,
}
use pdag.Store.Mutation.{
  create_lem, delete_lem, setters_write_one, WritesOne, written, missing, taken, kept_or_added,
}
use pdag.Store.Expiry.{delete_expired_lem, unexpired}
use pdag.Store.Invariant.{
  Call, creates, enables, sets_roles, sets_cidrs, updates_hash, sets_expiry, deletes, purges, call,
  run, Inv, call-Inv, run-Inv_from,
}

-- A store, as its callers see it.
abbrev pub Directory : Type 0
Directory = Text → Option KeyRecord

abbrev pub amend : (KeyRecord → KeyRecord) → Option KeyRecord → Option KeyRecord
amend write none = none
amend write (some rec) = some (write rec)

-- One ID's record, changed by what was there.
abbrev pub at_id : Text → (Option KeyRecord → Option KeyRecord) → Directory → Directory
at_id id change m j = if text_eq id j then change (m id) else m j

abbrev pub add : KeyRecord → Option KeyRecord → Option KeyRecord
add rec none = some rec
add rec (some old) = some old

-- It ends, and does so earlier.
abbrev pub ends_before : ℕ → Option ℕ → Bool
ends_before moment none = false
ends_before moment (some t) = ltb t moment

abbrev pub purge : ℕ → Option KeyRecord → Option KeyRecord
purge before none = none
purge before (some rec) = if ends_before before rec.expires_at then none else some rec

-- What each call does.
abbrev pub effect : Call → Directory → Directory
effect (creates rec now) = at_id rec.id (
    add (record rec {
      created_at = if rec.created_at == 0 then now else rec.created_at;
      updated_at = now;
    }))
effect (enables id enabled now) =
    at_id id (amend (λ r. record r { enabled = enabled; updated_at = now }))
effect (sets_roles id roles now) =
    at_id id (amend (λ r. record r { roles = roles; updated_at = now }))
effect (sets_cidrs id cidrs now) =
    at_id id (amend (λ r. record r { allowed_cidrs = cidrs; updated_at = now }))
effect (updates_hash id hash hmac now) =
    at_id id (amend (λ r. record r { key_hash = hash; hmac_key_id = hmac; updated_at = now }))
effect (sets_expiry id expiry now) =
    at_id id (amend (λ r. record r { expires_at = expiry; updated_at = now }))
effect (deletes id) = at_id id (λ rec. none)
effect (purges before) = λ m j. purge before (m j)

abbrev pub effects : List Call → Directory → Directory
effects [] m = m
effects (c ∷ cs) m = effects cs (effect c m)

abbrev pub if_some : Error → Option KeyRecord → Option Error
if_some e none = none
if_some e (some rec) = some e

abbrev pub if_none : Error → Option KeyRecord → Option Error
if_none e none = some e
if_none e (some rec) = none

-- The error that each call returns.
abbrev pub expected : Call → Directory → Option Error
expected (creates rec now) m = if_some already_exists (m rec.id)
expected (enables id enabled now) m = if_none key_not_found (m id)
expected (sets_roles id roles now) m = if_none key_not_found (m id)
expected (sets_cidrs id cidrs now) m = if_none key_not_found (m id)
expected (updates_hash id hash hmac now) m = if_none key_not_found (m id)
expected (sets_expiry id expiry now) m = if_none key_not_found (m id)
expected (deletes id) m = if_none key_not_found (m id)
expected (purges before) m = none

-- The error of the code.
unfoldable pub error_of : Keys → Call → Option Error
error_of keys (creates rec now) = (create keys rec now).1
error_of keys (enables id enabled now) = (set_enabled keys id enabled now).1
error_of keys (sets_roles id roles now) = (set_roles keys id roles now).1
error_of keys (sets_cidrs id cidrs now) = (set_allowed_cidrs keys id cidrs now).1
error_of keys (updates_hash id hash hmac now) = (update_hash keys id hash hmac now).1
error_of keys (sets_expiry id expiry now) = (set_expires_at keys id expiry now).1
error_of keys (deletes id) = (delete keys id).1
error_of keys (purges before) = none

missing-if_none : (o : Option KeyRecord) → missing o ≡ if_none key_not_found o
missing-if_none none = refl
missing-if_none (some rec) = refl

taken-if_some : (o : Option KeyRecord) → taken o ≡ if_some already_exists o
taken-if_some none = refl
taken-if_some (some rec) = refl

written-amend :
    (write : KeyRecord → KeyRecord) (now : ℕ) (o : Option KeyRecord)
    → written write now o ≡ amend (λ r. record (write r) { updated_at = now }) o
written-amend write now none = refl
written-amend write now (some rec) = refl

added :
    (rec : KeyRecord) (now : ℕ) (o : Option KeyRecord)
    → some (kept_or_added rec now o)
      ≡ add
          (record rec {
            created_at = if rec.created_at == 0 then now else rec.created_at;
            updated_at = now;
          })
          o
added rec now none = refl
added rec now (some old) = refl

same_end : (before : ℕ) (e : Option ℕ) → expires_before before e ≡ ends_before before e
same_end before none = refl
same_end before (some t) = refl

purged : (before : ℕ) (o : Option KeyRecord) → unexpired before o ≡ purge before o
purged before none = refl
purged before (some rec) = ap (λ b. if b then none else some rec) (same_end before rec.expires_at)

module _ (keys : Keys) where
  abbrev view : Directory
  view j = get_by_id keys j

  -- A setter does to the view what its write does to the one record.
  setter :
      (write : KeyRecord → KeyRecord) (method : Keys → Text → ℕ → Keys × Option Error) (id j : Text)
      (now : ℕ)
      → WritesOne write method
      → (get_by_id (method keys id now).0 j
          ≡ at_id id (amend (λ r. record (write r) { updated_at = now })) view j)
        × ((method keys id now).1 ≡ if_none key_not_found (view id))
  setter write method id j now w =
      let lem = w keys id j now in
      (
        lem.0 ∙ ap (λ o. if text_eq id j then o else view j) (written-amend write now (view id)),
        lem.1 ∙ missing-if_none (view id),
      )

  call-effect :
      (c : Call) (j : Text)
      → Inv keys
      → (get_by_id (call keys c) j ≡ effect c view j) × (error_of keys c ≡ expected c view)
  unfolding call error_of
  call-effect (creates rec now) j v =
      let lem = create_lem keys rec j now in
      (
        lem.0 ∙ ap (λ o. if text_eq rec.id j then o else view j) (added rec now (view rec.id)),
        lem.1 ∙ taken-if_some (view rec.id),
      )
  call-effect (enables id enabled now) j v =
      setter (with_enabled enabled) _ id j now (setters_write_one enabled [] [] [] [] none).0
  call-effect (sets_roles id roles now) j v =
      setter (with_roles roles) _ id j now (setters_write_one true roles [] [] [] none).1
  call-effect (sets_cidrs id cidrs now) j v =
      setter (with_allowed_cidrs cidrs) _ id j now (setters_write_one true [] cidrs [] [] none).2
  call-effect (updates_hash id hash hmac now) j v =
      setter (with_hash hash hmac) _ id j now (setters_write_one true [] [] hash hmac none).3
  call-effect (sets_expiry id expiry now) j v =
      setter (with_expires_at expiry) _ id j now (setters_write_one true [] [] [] [] expiry).4
  call-effect (deletes id) j v =
      let lem = delete_lem keys id j in (lem.0, lem.1 ∙ missing-if_none (view id))
  call-effect (purges before) j v =
      ((delete_expired_lem keys before j v.distinct).0 ∙ purged before (view j), refl)

-- After any calls the store is the directory that the calls leave.
view-run :
    (keys : Keys) (cs : List Call)
    → Inv keys
    → Path Directory (view (run keys cs)) (effects cs (view keys))
unfolding run
view-run keys [] v = refl
view-run keys (c ∷ cs) v =
    view-run (call keys c) cs (call-Inv keys c v)
    ∙ ap (effects cs) (λ i j. (call-effect keys c j v).0 i)

-- After any calls on a new store, a look-up of any ID finds what it would in an abstract directory after the
-- same calls, and the next call returns the error that it would there: Create adds its record, with its times
-- set, under an ID that is free, and else fails with already-exists; the Set methods and UpdateHash write their
-- fields and updated_at of the one record, Delete takes it away, and each fails with not-found if there is
-- none; DeleteExpired takes away the records that expire before its time.
pub store-refines :
    (cs : List Call) (c : Call) (j : Text)
    → (get_by_id (run new_store cs) j ≡ effects cs (λ id. none) j)
      × (error_of (run new_store cs) c ≡ expected c (effects cs (λ id. none)))
unfolding get_by_id lookup
store-refines cs c j =
    let empty : Inv new_store = record { distinct = tt; keyed = tt } in
    let same = view-run new_store cs empty in
    (
      ap (λ m. m j) same,
      (call-effect (run new_store cs) c j (run-Inv_from new_store cs empty)).1
          ∙ ap (expected c) same,
    )
