-- ===== src/Store/Expiry.antt =====
-- DeleteExpired.
use pdag.Common.{
  ℕ, ◌+◌, ◌≡◌, refl, Text, text_eq_iff, [], ◌∷◌, Option, none, some, arith, length, if◌then◌else◌,
  lookup, Distinct,
}
use pdag.Store.{KeyRecord, Keys, get_by_id, expires_before, delete_expired}

-- The record that is left of one after DeleteExpired.
abbrev pub unexpired : ℕ → Option KeyRecord → Option KeyRecord
unexpired before none = none
unexpired before (some rec) = if expires_before before rec.expires_at then none else some rec

pub lookup-delete_expired :
    (keys : Keys) (before : ℕ) (j : Text)
    → Distinct keys
    → lookup j (delete_expired keys before).0 ≡ unexpired before (lookup j keys)
unfolding lookup delete_expired
lookup-delete_expired [] before j d = refl
lookup-delete_expired ((id, rec) ∷ keys) before j d =
    ground (arith, lookup-delete_expired keys before j d.1, text_eq_iff id j)

count-delete_expired :
    (keys : Keys) (before : ℕ)
    → (delete_expired keys before).1 + length (delete_expired keys before).0 ≡ length keys
unfolding delete_expired
count-delete_expired [] before = refl
count-delete_expired ((id, rec) ∷ keys) before = ground (arith, count-delete_expired keys before)

-- DeleteExpired removes the records that expire before the given time, keeps all others as they are,
-- those with no expiry too, and returns how many it has removed.
pub delete_expired_lem :
    (keys : Keys) (before : ℕ) (j : Text)
    → Distinct keys
    → (get_by_id (delete_expired keys before).0 j ≡ unexpired before (get_by_id keys j))
      × ((delete_expired keys before).1 + length (delete_expired keys before).0 ≡ length keys)
unfolding get_by_id
delete_expired_lem keys before j d =
    (lookup-delete_expired keys before j d, count-delete_expired keys before)
