-- ===== src/Postgres/Records.antt =====
-- Create and GetByID against each other.
use pdag.Common.{ℕ, ◌≡◌, refl, ap, ◌∙◌, true, some, Option-cases, inl, inr, all}
use pdag.Store.{KeyRecord}
use pdag.Authn.{found}
use pdag.PgArray.{scan}
use pdag.PgArray.RoundTrip.{survives, scan-value}
use pdag.Postgres.{
  Database, inserted, Row, KeepsRow, Keeps, written, record_of, with_arrays, row_found, get_by_id,
  create,
}

-- A record as Create was given it; the database sets the times.
pub record Kept (rec got : KeyRecord) : Type 0 where
  pub id : got.id ≡ rec.id
  pub key_hash : got.key_hash ≡ rec.key_hash
  pub hmac_key_id : got.hmac_key_id ≡ rec.hmac_key_id
  pub principal : got.principal ≡ rec.principal
  pub roles : got.roles ≡ rec.roles
  pub allowed_cidrs : got.allowed_cidrs ≡ rec.allowed_cidrs
  pub enabled : got.enabled ≡ rec.enabled
  pub expires_at : got.expires_at ≡ rec.expires_at

module _ (database : Database) where
  open database use {Db, insert, select}

  found_row :
      (db : Db) (rec : KeyRecord) (got : Row)
      → select db rec.id ≡ some (some got)
      → KeepsRow database (inserted rec) got
      → all survives rec.roles ≡ true
      → all survives rec.allowed_cidrs ≡ true
      → (read : KeyRecord) × (get_by_id database db rec.id ≡ found read) × Kept rec read
  unfolding get_by_id record_of
  found_row db rec got s kept r c =
      let a = scan-value rec.roles r in
      let b = scan-value rec.allowed_cidrs c in
      let roles = kept.roles rec.roles a.0 a.1 a.1 ∙ a.2 in
      let cidrs = kept.allowed_cidrs rec.allowed_cidrs b.0 b.1 b.1 ∙ b.2 in
      (
        record {
          id = got.id;
          key_hash = got.key_hash;
          hmac_key_id = got.hmac_key_id;
          principal = got.principal;
          roles = rec.roles;
          allowed_cidrs = rec.allowed_cidrs;
          enabled = got.enabled;
          expires_at = got.expires_at;
          created_at = got.created_at;
          updated_at = got.updated_at;
        },
        rw (s, get_by_id)
            (ap (λ x. row_found (with_arrays got x (scan got.allowed_cidrs))) roles
              ∙ ap (λ x. row_found (with_arrays got (some (some rec.roles)) x)) cidrs),
        record {
          id = kept.id;
          key_hash = kept.key_hash;
          hmac_key_id = kept.hmac_key_id;
          principal = kept.principal;
          roles = refl;
          allowed_cidrs = refl;
          enabled = kept.enabled;
          expires_at = kept.expires_at;
        },
      )

  -- With a database that keeps its rows, GetByID returns the record that Create has stored, if its roles and
  -- its CIDRs survive being written as arrays.
  pub get_by_id-create :
      (keeps : Keeps database) (db db' : Db) (now : ℕ) (rec : KeyRecord)
      → all survives rec.roles ≡ true
      → all survives rec.allowed_cidrs ≡ true
      → create database db now rec ≡ written db'
      → (read : KeyRecord) × (get_by_id database db' rec.id ≡ found read) × Kept rec read
  unfolding create
  get_by_id-create keeps db db' now rec r c e = elim (Option-cases (insert db now (inserted rec))) [
    | inl n ↦ cc (rw (n, create) at e)
    | inr (next, s) ↦
        let e' = rw (s, create) at e in
        let same : next ≡ db' = cc in
        let k = keeps db db' now (inserted rec) (s ∙ ap some same) in
        found_row db' rec k.0 k.1 k.2 r c
  ]
