-- ===== src/Store.antt =====
-- internal/store/store.go and internal/store/memory/memory.go: the records of API keys, and the store
-- that keeps them in a map. Times are in nanoseconds, 0 being Go's zero time; each call that reads the
-- clock is given the time. Go's copies of a record and its lists are the values themselves here. What
-- List returns comes in the order of the map, and records created at one moment stay in that order.
pub mod Mutation
pub mod Invariant
pub mod Refinement
pub mod Listing
pub mod Expiry
mod Tests
use pdag.Common.{
  ℕ, suc, Bool, true, false, not, ◌&&◌, ◌||◌, ◌==◌, Text, text_eq, List, [], ◌∷◌, Option, none,
  some, map, filter, any, length, take, drop, leb, ltb, ℤ, pos_part, if◌then◌else◌, lookup, erase,
  put,
}

pub record KeyRecord : Type 0 where
  pub id : Text
  pub key_hash : Text
  pub hmac_key_id : Text
  pub principal : Text
  pub roles : List Text
  pub allowed_cidrs : List Text
  pub enabled : Bool
  pub expires_at : Option ℕ
  pub created_at : ℕ
  pub updated_at : ℕ

pub data Error : Type 0 where
  already_exists key_not_found : Error

-- Store.keys
abbrev pub Keys : Type 0
Keys = List (Text × KeyRecord)

abbrev pub new_store : Keys
new_store = []

unfoldable pub get_by_id : Keys → Text → Option KeyRecord
get_by_id keys id = lookup id keys

unfoldable pub create : Keys → KeyRecord → ℕ → Keys × Option Error
create keys rec now = elim (lookup rec.id keys) [
  | some old ↦ (keys, some already_exists)
  | none ↦ (
    put rec.id
        (record rec {
          created_at = if rec.created_at == 0 then now else rec.created_at;
          updated_at = now;
        })
        keys,
    none,
  )
]

-- The shape of the Set methods and UpdateHash: a write to the record that the map holds.
unfoldable pub mutate : (KeyRecord → KeyRecord) → Keys → Text → ℕ → Keys × Option Error
mutate write keys id now = elim (lookup id keys) [
  | none ↦ (keys, some key_not_found)
  | some rec ↦ (put id (record (write rec) { updated_at = now }) keys, none)
]

-- The writes of the methods.
abbrev pub with_enabled : Bool → KeyRecord → KeyRecord
with_enabled enabled rec = record rec { enabled = enabled }

abbrev pub with_roles : List Text → KeyRecord → KeyRecord
with_roles roles rec = record rec { roles = roles }

abbrev pub with_allowed_cidrs : List Text → KeyRecord → KeyRecord
with_allowed_cidrs cidrs rec = record rec { allowed_cidrs = cidrs }

abbrev pub with_hash : Text → Text → KeyRecord → KeyRecord
with_hash hash hmac_key_id rec = record rec { key_hash = hash; hmac_key_id = hmac_key_id }

abbrev pub with_expires_at : Option ℕ → KeyRecord → KeyRecord
with_expires_at expires_at rec = record rec { expires_at = expires_at }

unfoldable pub set_enabled : Keys → Text → Bool → ℕ → Keys × Option Error
set_enabled keys id enabled now = mutate (with_enabled enabled) keys id now

unfoldable pub set_roles : Keys → Text → List Text → ℕ → Keys × Option Error
set_roles keys id roles now = mutate (with_roles roles) keys id now

unfoldable pub set_allowed_cidrs : Keys → Text → List Text → ℕ → Keys × Option Error
set_allowed_cidrs keys id cidrs now = mutate (with_allowed_cidrs cidrs) keys id now

unfoldable pub update_hash : Keys → Text → Text → Text → ℕ → Keys × Option Error
update_hash keys id new_hash new_hmac_key_id now =
    mutate (with_hash new_hash new_hmac_key_id) keys id now

unfoldable pub set_expires_at : Keys → Text → Option ℕ → ℕ → Keys × Option Error
set_expires_at keys id expires_at now = mutate (with_expires_at expires_at) keys id now

unfoldable pub delete : Keys → Text → Keys × Option Error
delete keys id = elim (lookup id keys) [
  | none ↦ (keys, some key_not_found)
  | some rec ↦ (erase id keys, none)
]

abbrev pub expires_before : ℕ → Option ℕ → Bool
expires_before moment none = false
expires_before moment (some t) = ltb t moment

-- The loop of DeleteExpired, with its count.
unfoldable pub delete_expired : Keys → ℕ → Keys × ℕ
delete_expired [] before = ([], 0)
delete_expired ((id, rec) ∷ keys) before =
    let (rest, count) = delete_expired keys before in
    if expires_before before rec.expires_at then (rest, suc count) else ((id, rec) ∷ rest, count)

-- clampPaging
unfoldable pub clamp_paging : ℤ → ℤ → ℕ × ℕ
clamp_paging limit offset = (pos_part limit, pos_part offset)

abbrev pub records : Keys → List KeyRecord
records [] = []
records ((id, rec) ∷ keys) = rec ∷ records keys

-- List
unfoldable pub list : Keys → List KeyRecord
list keys = records keys

-- sort.Slice by CreatedAt.
unfoldable pub insert : KeyRecord → List KeyRecord → List KeyRecord
insert r [] = r ∷ []
insert r (s ∷ rs) =
    let rest = insert r rs in if leb r.created_at s.created_at then r ∷ s ∷ rs else s ∷ rest

unfoldable pub sort : List KeyRecord → List KeyRecord
unfolding insert
sort [] = []
sort (r ∷ rs) = insert r (sort rs)

-- The offset and the limit; nil is the empty list.
unfoldable pub page : ℕ → ℕ → List KeyRecord → List KeyRecord
page limit offset all =
    if leb (length all) offset
    then []
    else (let rest = drop offset all in if ltb limit (length rest) then take limit rest else rest)

unfoldable pub list_paged : Keys → ℤ → ℤ → List KeyRecord
unfolding clamp_paging page
list_paged keys limit offset =
    let (l, o) = clamp_paging limit offset in page l o (sort (records keys))

-- The two tests with `continue` of ListFiltered.
unfoldable pub matches : Text → Text → KeyRecord → Bool
matches principal role rec =
    (text_eq principal [] || text_eq rec.principal principal)
    && (text_eq role [] || any (λ r. text_eq r role) rec.roles)

unfoldable pub list_filtered : Keys → ℤ → ℤ → Text → Text → List KeyRecord
unfolding clamp_paging page
list_filtered keys limit offset principal role =
    let (l, o) = clamp_paging limit offset in
    page l o (sort (filter (matches principal role) (records keys)))
