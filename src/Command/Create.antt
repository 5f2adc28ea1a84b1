-- ===== src/Command/Create.antt =====
-- runKeyCreate and the authentication of requests together: a key that is printed can be used.
use pdag.Common.{◌≡◌, Text, ◌++◌, split, List, ◌∷◌, none}
use pdag.Postgres.{Database, get_by_id}
use pdag.Postgres as Postgres
use pdag.Authn.{Crypto}
use pdag.Admin.Keygen.{Generator}
use pdag.Admin.Issued.{Issued}
use pdag.Config.{Floats, Config}
use pdag.Command.{
  Flags, Output, usage, flag_exit, no_keys, failure, new_key, table, enabled_is, deleted, trim_all,
}

module _ (floats : Floats) (database : Database) (crypto : Crypto)
    (encode_to_string : Text → Text) where
  open database use {Db}

  -- What create makes of the flag --roles.
  abbrev pub roles_of : Flags → List Text
  roles_of flags = trim_all (split b',' flags.roles)

  -- A key that is printed is one that the store has.
  Prints : Flags → Generator → Db × Output → Type 0
  Prints flags keygen (db, new_key id secret header) =
      Issued crypto encode_to_string keygen none (get_by_id database db) id secret flags.principal
        (roles_of flags)
      × (header ≡ id ++ b':' ∷ secret)
  Prints flags keygen (db, usage) = Unit
  Prints flags keygen (db, flag_exit) = Unit
  Prints flags keygen (db, no_keys) = Unit
  Prints flags keygen (db, failure f) = Unit
  Prints flags keygen (db, table rows) = Unit
  Prints flags keygen (db, enabled_is id enabled) = Unit
  Prints flags keygen (db, deleted id) = Unit
