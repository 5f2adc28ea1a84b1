-- ===== src/Command/Tests.antt =====
-- Runs of `pdag key`, with the configuration of the tests of Config and a database of one table.
use pdag.Common.{
  ℕ, ◌≡◌, refl, true, Text, codes, text_eq, List, [], ◌∷◌, Option, none, some, lookup, put, erase,
}
use pdag.PgArray.{Source, nil, string}
use pdag.Postgres.{Row, Inserted, Database, list, records_of}
use pdag.Admin.Tests.{padding, digits, random, id, secret}
use pdag.Config.Tests.{floats, with_database}
use pdag.Command.{
  Flags, Call, no_keys, failure, key_id_required, open_with, open_key_env, run_key_list,
  run_key_set_enabled, set_enabled_of, run_subcommand, run_key,
}

abbrev column : Option Text → Source
column none = nil
column (some literal) = string literal

abbrev row_of : ℕ → Inserted → Row
row_of now row = record {
  id = row.id;
  key_hash = row.key_hash;
  hmac_key_id = row.hmac_key_id;
  principal = row.principal;
  roles = column row.roles;
  allowed_cidrs = column row.allowed_cidrs;
  enabled = row.enabled;
  expires_at = row.expires_at;
  created_at = now;
  updated_at = now;
}

abbrev rows : List (Text × Row) → List Row
rows [] = []
rows ((key, row) ∷ more) = row ∷ rows more

abbrev insert_row : List (Text × Row) → ℕ → Inserted → Option (List (Text × Row))
insert_row db now row = elim (lookup row.id db) [
  | some old ↦ none
  | none ↦ some (put row.id (row_of now row) db)
]

abbrev table : Database
table = record {
  Db = List (Text × Row);
  insert = insert_row;
  select = λ db id. some (lookup id db);
  select_all = λ db. some (rows db);
  update_enabled = λ db now id enabled. elim (lookup id db) [
    | none ↦ some (db, 0)
    | some row ↦ some (put id (record row { enabled = enabled; updated_at = now }) db, 1)
  ];
  delete_key =
      λ db id. elim (lookup id db) [ none ↦ some (db, 0) | some row ↦ some (erase id db, 1) ];
}

abbrev flags : Flags
flags = record { principal = codes "alice"; roles = codes " admin"; args = [] }

abbrev call : Call floats
call = record {
  parse = λ of_create args. some flags;
  config = some with_database;
  has_path = true;
  store_opens = true;
  now = 3;
  random = random;
}

abbrev stored : List (Text × Row)
stored =
    (
      id,
      record {
        id = id;
        key_hash = digits (padding.hmac (codes "0123456789abcdef") secret);
        hmac_key_id = codes "h";
        principal = codes "alice";
        roles = string (codes "{admin}");
        allowed_cidrs = string (codes "{}");
        enabled = true;
        expires_at = none;
        created_at = 3;
        updated_at = 3;
      },
    )
    ∷ []

id_wanted :
    run_key floats table padding digits call (codes "pdag" ∷ codes "key" ∷ codes "enable" ∷ []) []
    ≡ ([], failure key_id_required)
unfolding run_key run_subcommand run_key_set_enabled open_key_env open_with set_enabled_of text_eq
id_wanted = refl

nothing_listed :
    run_key floats table padding digits call (codes "pdag" ∷ codes "key" ∷ codes "list" ∷ []) []
    ≡ ([], no_keys)
unfolding run_key run_subcommand run_key_list open_key_env open_with list records_of text_eq
nothing_listed = refl
