-- ===== src/Postgres.antt =====
-- internal/store/postgres/postgres.go: GetByID, Create, List, SetEnabled and Delete. The database is a
-- parameter, with a function for each statement; its clock is read when a statement runs.
pub mod Records
use pdag.Common.{ℕ, ◌==◌, ◌≡◌, Bool, Text, List, [], ◌∷◌, Option, none, some, if◌then◌else◌}
use pdag.Store.{KeyRecord}
use pdag.Authn.{Found, failed, absent, found}
use pdag.PgArray.{Source, string, Array, scan, value}

-- A row of api_keys as the driver hands it to Scan.
pub record Row : Type 0 where
  pub id : Text
  pub key_hash : Text
  pub hmac_key_id : Text
  pub principal : Text
  pub roles : Source
  pub allowed_cidrs : Source
  pub enabled : Bool
  pub expires_at : Option ℕ
  pub created_at : ℕ
  pub updated_at : ℕ

-- The arguments of the INSERT; `none` is a NULL.
pub record Inserted : Type 0 where
  pub id : Text
  pub key_hash : Text
  pub hmac_key_id : Text
  pub principal : Text
  pub roles : Option Text
  pub allowed_cidrs : Option Text
  pub enabled : Bool
  pub expires_at : Option ℕ

-- The arguments of Create's INSERT; coalesceStrings makes of a nil list an empty one.
abbrev pub inserted : KeyRecord → Inserted
inserted rec = record {
  id = rec.id;
  key_hash = rec.key_hash;
  hmac_key_id = rec.hmac_key_id;
  principal = rec.principal;
  roles = value (some rec.roles);
  allowed_cidrs = value (some rec.allowed_cidrs);
  enabled = rec.enabled;
  expires_at = rec.expires_at;
}

-- The statements, with `none` for an error; an UPDATE and a DELETE give the number of rows too.
pub record Database : Type 1 where
  pub Db : Type 0
  pub insert : Db → ℕ → Inserted → Option Db
  pub select : Db → Text → Option (Option Row)
  pub select_all : Db → Option (List Row)
  pub update_enabled : Db → ℕ → Text → Bool → Option (Db × ℕ)
  pub delete_key : Db → Text → Option (Db × ℕ)

-- `[]string` of a scanned array.
abbrev pub elements : Array → List Text
elements none = []
elements (some elems) = elems

abbrev pub with_arrays : Row → Option Array → Option Array → Option KeyRecord
with_arrays row none cidrs = none
with_arrays row (some roles) none = none
with_arrays row (some roles) (some cidrs) = some (record {
  id = row.id;
  key_hash = row.key_hash;
  hmac_key_id = row.hmac_key_id;
  principal = row.principal;
  roles = elements roles;
  allowed_cidrs = elements cidrs;
  enabled = row.enabled;
  expires_at = row.expires_at;
  created_at = row.created_at;
  updated_at = row.updated_at;
})

-- The Scan of a row, with `none` for its error.
unfoldable pub record_of : Row → Option KeyRecord
record_of row = with_arrays row (scan row.roles) (scan row.allowed_cidrs)

abbrev pub row_found : Option KeyRecord → Found
row_found none = failed
row_found (some rec) = found rec

abbrev pub cons_record : Option KeyRecord → Option (List KeyRecord) → Option (List KeyRecord)
cons_record none rest = none
cons_record (some rec) none = none
cons_record (some rec) (some recs) = some (rec ∷ recs)

-- The loop over the rows.
unfoldable pub records_of : List Row → Option (List KeyRecord)
unfolding record_of
records_of [] = some []
records_of (row ∷ rows) = cons_record (record_of row) (records_of rows)

module _ (database : Database) where
  open database use {Db, insert, select, select_all, update_enabled, delete_key}

  -- What a method that writes comes to: the database then, ErrKeyNotFound, or another error.
  pub data Written : Type 0 where
    written : Db → Written
    key_not_found failure : Written

  -- GetByID
  unfoldable pub get_by_id : Db → Text → Found
  unfolding record_of
  get_by_id db id = elim (select db id) [
    | none ↦ failed
    | some none ↦ absent
    | some (some row) ↦ row_found (record_of row)
  ]

  unfoldable pub create : Db → ℕ → KeyRecord → Written
  create db now rec = elim (insert db now (inserted rec)) [
    | none ↦ failure
    | some db' ↦ written db'
  ]

  unfoldable pub list : Db → Option (List KeyRecord)
  unfolding records_of
  list db = elim (select_all db) [ none ↦ none | some rows ↦ records_of rows ]

  -- checkRowsAffected, with the error of the statement.
  abbrev pub check_rows_affected : Option (Db × ℕ) → Written
  check_rows_affected none = failure
  check_rows_affected (some (db, n)) = if n == 0 then key_not_found else written db

  unfoldable pub set_enabled : Db → ℕ → Text → Bool → Written
  set_enabled db now id enabled = check_rows_affected (update_enabled db now id enabled)

  unfoldable pub delete : Db → Text → Written
  delete db id = check_rows_affected (delete_key db id)

  -- What is relied on of PostgreSQL: after an INSERT the row can be selected, with its columns as they were
  -- given, and Scan reads from an array that Value wrote what it would read from the literal that was written.
  pub record KeepsRow (row : Inserted) (got : Row) : Type 0 where
    pub id : got.id ≡ row.id
    pub key_hash : got.key_hash ≡ row.key_hash
    pub hmac_key_id : got.hmac_key_id ≡ row.hmac_key_id
    pub principal : got.principal ≡ row.principal
    pub enabled : got.enabled ≡ row.enabled
    pub expires_at : got.expires_at ≡ row.expires_at
    pub roles :
        (elems : List Text) (literal : Text)
        → value (some elems) ≡ some literal
        → row.roles ≡ some literal
        → scan got.roles ≡ scan (string literal)
    pub allowed_cidrs :
        (elems : List Text) (literal : Text)
        → value (some elems) ≡ some literal
        → row.allowed_cidrs ≡ some literal
        → scan got.allowed_cidrs ≡ scan (string literal)

  abbrev pub Keeps : Type 0
  Keeps =
      (db db' : Db) (now : ℕ) (row : Inserted)
      → insert db now row ≡ some db'
      → (got : Row) × (select db' row.id ≡ some (some got)) × KeepsRow row got
