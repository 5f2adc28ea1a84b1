-- ===== src/Command.antt =====
-- cmd/pdag/key.go: the key commands, on the store of Postgres. What a process meets outside the program comes
-- with its call: the flag package, what config.Load returns, filepath.Abs, opening the store, the clock and the
-- random bytes. The table of runKeyList is its rows, without the padding.
pub mod Create
mod Tests
use pdag.Common.{
  ℕ, ◌≡◌, Bool, true, false, not, ◌||◌, Text, codes, text_eq, split, join, trim_space, List, [],
  ◌∷◌, ◌++◌, Option, none, some, map, is_empty, if◌then◌else◌,
}
use pdag.Store.{KeyRecord}
use pdag.Postgres.{Database, Written, written, create, list, set_enabled, delete}
use pdag.Postgres as Postgres
use pdag.Authn.{Crypto}
use pdag.Admin.Keygen.{Generator, Random, generate_key_id, generate_secret, hash}
use pdag.Config.{Floats, Config}
use pdag.Config.Secrets.{current_hmac_secret, keygen_of}

pub record Flags : Type 0 where
  pub principal : Text
  pub roles : Text
  pub args : List Text

-- A line of the table of runKeyList; the time is not formatted.
pub record Row : Type 0 where
  pub id : Text
  pub principal : Text
  pub roles : Text
  pub enabled : Bool
  pub expires_at : Option ℕ

pub data Failure : Type 0 where
  config_not_loaded database_required migrations_unresolved store_not_opened : Failure
  no_hmac_secret flags_required no_random key_id_required key_not_found store_failed : Failure
  unknown_subcommand : Text → Failure

-- How a command ends: os.Exit with the usage or in the flag package, an error, or what it prints. Of a new key
-- these are its ID, its secret and the header.
pub data Output : Type 0 where
  usage flag_exit no_keys : Output
  failure : Failure → Output
  new_key : Text → Text → Text → Output
  table : List Row → Output
  enabled_is : Text → Bool → Output
  deleted : Text → Output

-- What openKeyEnv returns, with the parsed flags, or how it ends.
pub data Opened : Type 0 where
  opened : Flags → Generator → Opened
  not_opened : Output → Opened

abbrev pub trim_all : List Text → List Text
trim_all = map trim_space

abbrev pub row_of : KeyRecord → Row
row_of k = record {
  id = k.id;
  principal = k.principal;
  roles = join b',' k.roles;
  enabled = k.enabled;
  expires_at = k.expires_at;
}

module _ (floats : Floats) where
  -- The flag package has the flags of create exactly if it is given `true`.
  pub record Call : Type 0 where
    pub parse : Bool → List Text → Option Flags
    pub config : Option (Config floats)
    pub has_path : Bool
    pub store_opens : Bool
    pub now : ℕ
    pub random : Random

  -- openKeyEnv from the parsed flags on.
  unfoldable pub open_with : Call → Flags → Opened
  open_with c flags = elim c.config [
    | none ↦ not_opened (failure config_not_loaded)
    | some cfg ↦
        if text_eq cfg.db_dsn []
        then not_opened (failure database_required)
        else if not c.has_path
        then not_opened (failure migrations_unresolved)
        else if not c.store_opens
        then not_opened (failure store_not_opened)
        else elim (current_hmac_secret cfg.hmac_secrets) [
          | none ↦ not_opened (failure no_hmac_secret)
          | some current ↦ opened flags (keygen_of current)
        ]
  ]

  unfoldable pub open_key_env : Call → Bool → List Text → Opened
  unfolding open_with
  open_key_env c of_create args = elim (c.parse of_create args) [
    | none ↦ not_opened flag_exit
    | some flags ↦ open_with c flags
  ]

  module _ (database : Database) where
    open database use {Db}

    -- What follows a store's call that writes.
    unfoldable pub after_call : Db → Output → Written database → Db × Output
    after_call db out (written db') = (db', out)
    after_call db out Postgres.key_not_found = (db, failure key_not_found)
    after_call db out Postgres.failure = (db, failure store_failed)

    abbrev pub printed_list : Option (List KeyRecord) → Output
    printed_list none = failure store_failed
    printed_list (some keys) = if is_empty keys then no_keys else table (map row_of keys)

    unfoldable pub run_key_list : Call → List Text → Db → Db × Output
    run_key_list c args db = elim (open_key_env c false args) [
      | not_opened out ↦ (db, out)
      | opened flags keygen ↦ (db, printed_list (list database db))
    ]

    -- runKeySetEnabled and runKeyDelete from the arguments on.
    unfoldable pub set_enabled_of : Call → Bool → List Text → Db → Db × Output
    unfolding after_call
    set_enabled_of c enabled [] db = (db, failure key_id_required)
    set_enabled_of c enabled (id ∷ more) db =
        after_call db (enabled_is id enabled) (set_enabled database db c.now id enabled)

    unfoldable pub delete_of : Call → List Text → Db → Db × Output
    unfolding after_call
    delete_of c [] db = (db, failure key_id_required)
    delete_of c (id ∷ more) db = after_call db (deleted id) (delete database db id)

    unfoldable pub run_key_set_enabled : Call → Bool → List Text → Db → Db × Output
    unfolding set_enabled_of
    run_key_set_enabled c enabled args db = elim (open_key_env c false args) [
      | not_opened out ↦ (db, out)
      | opened flags keygen ↦ set_enabled_of c enabled flags.args db
    ]

    unfoldable pub run_key_delete : Call → List Text → Db → Db × Output
    unfolding delete_of
    run_key_delete c args db = elim (open_key_env c false args) [
      | not_opened out ↦ (db, out)
      | opened flags keygen ↦ delete_of c flags.args db
    ]

    module _ (crypto : Crypto) (encode_to_string : Text → Text) where
      -- The record that runKeyCreate makes; both times are zero.
      abbrev pub new_record : Generator → Text → Text → Text → List Text → KeyRecord
      new_record keygen id secret principal roles = record {
        id = id;
        key_hash = hash crypto encode_to_string keygen secret;
        hmac_key_id = keygen.hmac_key_id;
        principal = principal;
        roles = roles;
        allowed_cidrs = [];
        enabled = true;
        expires_at = none;
        created_at = 0;
        updated_at = 0;
      }

      -- runKeyCreate from openKeyEnv on.
      unfoldable pub create_key : Call → Flags → Generator → Db → Db × Output
      unfolding after_call
      create_key c flags keygen db =
          if text_eq flags.principal [] || text_eq flags.roles []
          then (db, failure flags_required)
          else elim (generate_key_id crypto encode_to_string c.random) [
            | none ↦ (db, failure no_random)
            | some id ↦ elim (generate_secret crypto encode_to_string c.random) [
              | none ↦ (db, failure no_random)
              | some secret ↦ after_call db (new_key id secret (id ++ b':' ∷ secret)) (
                  create database db c.now (
                    new_record keygen id secret flags.principal
                      (trim_all (split b',' flags.roles))))
            ]
          ]

      unfoldable pub run_key_create : Call → List Text → Db → Db × Output
      unfolding create_key
      run_key_create c args db = elim (open_key_env c true args) [
        | not_opened out ↦ (db, out)
        | opened flags keygen ↦ create_key c flags keygen db
      ]

      -- The switch of runKey.
      unfoldable pub run_subcommand : Call → Text → List Text → Db → Db × Output
      run_subcommand c sub args db =
          if text_eq sub (codes "create")
          then run_key_create c args db
          else if text_eq sub (codes "list")
          then run_key_list c args db
          else if text_eq sub (codes "disable")
          then run_key_set_enabled c false args db
          else if text_eq sub (codes "enable")
          then run_key_set_enabled c true args db
          else if text_eq sub (codes "delete")
          then run_key_delete c args db
          else (db, failure (unknown_subcommand sub))

      -- runKey, with os.Args.
      unfoldable pub run_key : Call → List Text → Db → Db × Output
      unfolding run_subcommand
      run_key c (program ∷ command ∷ sub ∷ args) db = run_subcommand c sub args db
      run_key c _ db = (db, usage)
