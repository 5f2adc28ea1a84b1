-- ===== src/Admin/Handlers.antt =====
-- internal/admin/server.go: the handlers, one for each route. strconv.Atoi, time.Parse with RFC 3339 and
-- net.ParseCIDR are parameters.
use pdag.Common.{
  ℕ, ◌+◌, Bool, true, not, Text, codes, text_eq, List, [], ◌∷◌, Option, none, some, map, all,
  length, ltb, if◌then◌else◌, ℤ, pos, negsuc,
}
use pdag.Store.{
  KeyRecord, Keys, Error, create, set_enabled, set_roles, set_allowed_cidrs, update_hash,
  set_expires_at, delete, delete_expired, list_filtered,
}
use pdag.Authn.{Crypto, failed, absent, found}
use pdag.Admin.{
  State, Conditions, Reply, error, no_content, one_key, key_list, created, rotated, deleted,
  KeyResponse, internal_error, not_found, look_up, mutation, Validated, valid, invalid,
  validate_roles, max_principal_len, max_allowed_cidrs,
}
use pdag.Admin.Keygen.{Generator, Random, generate_key_id, generate_secret, hash}

-- What is used of strconv.Atoi, time.Parse and net.ParseCIDR.
pub record Parsers : Type 0 where
  pub atoi : Text → Option ℤ
  pub parse_time : Text → Option ℕ
  pub is_cidr : Text → Bool

pub record CreateKeyRequest : Type 0 where
  pub principal : Text
  pub roles : List Text
  pub expires_at : Option Text

abbrev pub response_of : KeyRecord → KeyResponse
response_of rec = record {
  id = rec.id;
  principal = rec.principal;
  roles = rec.roles;
  allowed_cidrs = rec.allowed_cidrs;
  enabled = rec.enabled;
  expires_at = rec.expires_at;
  created_at = rec.created_at;
}

unfoldable pub get_key : Conditions → State → Text → State × Reply
get_key c s id = elim (look_up c s.keys id) [
  | failed ↦ (s, internal_error)
  | absent ↦ (s, not_found)
  | found rec ↦ (s, one_key (response_of rec))
]

unfoldable pub purge_expired : Conditions → State → State × Reply
purge_expired c s =
    if c.writes_fail
    then (s, internal_error)
    else (let (kept, n) = delete_expired s.keys c.now in
        let purged = record s { keys = kept } in
        if c.audit_fails
        then (purged, error 500 (codes "audit logging failed"))
        else (record purged { trail = ([], codes "purge_expired") ∷ s.trail }, deleted n))

-- What a handler makes of expires_at: a time, nothing, or an error.
pub data Expiry : Type 0 where
  never : Expiry
  at : ℕ → Expiry
  rejected : Text → Expiry

-- The parsed time, if it is after now.
unfoldable pub check_future : ℕ → Option ℕ → Expiry
check_future now none = rejected (codes "invalid expires_at format (use RFC3339)")
check_future now (some t) =
    if ltb now t then at t else rejected (codes "expires_at must be in the future")

abbrev pub expiry_of : Expiry → Option ℕ
expiry_of never = none
expiry_of (at t) = some t
expiry_of (rejected message) = none

module _ (parsers : Parsers) where
  open parsers use {atoi, parse_time, is_cidr}

  unfoldable pub parse_expiry : ℕ → Option Text → Expiry
  parse_expiry now none = never
  parse_expiry now (some text) = check_future now (parse_time text)

  -- A number of the query: the default if it is absent, `none` if it is no number or below `least`.
  unfoldable pub query_number : ℕ → ℕ → Text → Option ℕ
  query_number least default v = if text_eq v [] then some default else elim (atoi v) [
    | none ↦ none
    | some (negsuc n) ↦ none
    | some (pos n) ↦ if ltb n least then none else some n
  ]

  abbrev pub default_limit : ℕ
  default_limit = 100

  abbrev pub max_limit : ℕ
  max_limit = 1000

  abbrev pub cap_limit : ℕ → ℕ
  cap_limit limit = if ltb max_limit limit then max_limit else limit

  unfoldable pub list_keys : Conditions → State → Text → Text → Text → Text → State × Reply
  list_keys c s limit offset principal role = elim (query_number 1 default_limit limit) [
    | none ↦ (s, error 400 (codes "limit must be a positive integer"))
    | some l ↦ elim (query_number 0 0 offset) [
      | none ↦ (s, error 400 (codes "offset must be a non-negative integer"))
      | some o ↦ if c.reads_fail then (s, internal_error) else (
        s,
        key_list
            (map response_of (list_filtered s.keys (pos (cap_limit l)) (pos o) principal role)),
      )
    ]
  ]

  unfoldable pub delete_key : Conditions → State → Text → State × Reply
  delete_key c s id = mutation c s id (codes "delete") no_content (delete s.keys id)

  unfoldable pub set_key_enabled : Bool → Conditions → State → Text → State × Reply
  set_key_enabled enabled c s id =
      mutation c s id (if enabled then codes "enable" else codes "disable") no_content
        (set_enabled s.keys id enabled c.now)

  -- The setExpiry handler from the parsed time on.
  unfoldable pub write_expiry : Conditions → State → Text → Expiry → State × Reply
  write_expiry c s id (rejected message) = (s, error 400 message)
  write_expiry c s id never =
      mutation c s id (codes "update_expiry") no_content (set_expires_at s.keys id none c.now)
  write_expiry c s id (at t) =
      mutation c s id (codes "update_expiry") no_content (set_expires_at s.keys id (some t) c.now)

  abbrev pub invalid_json : Reply
  invalid_json = error 400 (codes "invalid JSON")

  unfoldable pub set_expiry : Conditions → State → Text → Option (Option Text) → State × Reply
  unfolding write_expiry
  set_expiry c s id none = (s, invalid_json)
  set_expiry c s id (some expires_at) = write_expiry c s id (parse_expiry c.now expires_at)

  unfoldable pub write_roles : Conditions → State → Text → Validated → State × Reply
  write_roles c s id (invalid message) = (s, error 400 message)
  write_roles c s id (valid roles) =
      mutation c s id (codes "update_roles") no_content (set_roles s.keys id roles c.now)

  unfoldable pub update_roles : Conditions → State → Text → Option (List Text) → State × Reply
  unfolding write_roles
  update_roles c s id none = (s, invalid_json)
  update_roles c s id (some roles) = write_roles c s id (validate_roles roles)

  -- The message about an invalid CIDR ends with the CIDR and the parser's error.
  unfoldable pub update_allowed_cidrs :
      Conditions → State → Text → Option (List Text) → State × Reply
  update_allowed_cidrs c s id none = (s, invalid_json)
  update_allowed_cidrs c s id (some cidrs) =
      if ltb max_allowed_cidrs (length cidrs)
      then (s, error 400 (codes "too many allowed_cidrs (max 256)"))
      else if not (all is_cidr cidrs)
      then (s, error 400 (codes "invalid CIDR"))
      else mutation c s id (codes "update_allowed_cidrs") no_content
          (set_allowed_cidrs s.keys id cidrs c.now)

  module _ (crypto : Crypto) (encode_to_string : Text → Text) (keygen : Generator) where
    -- The record that createKey makes.
    abbrev pub new_record : ℕ → Text → Text → Text → List Text → Expiry → KeyRecord
    new_record now id secret principal roles expiry = record {
      id = id;
      key_hash = hash crypto encode_to_string keygen secret;
      hmac_key_id = keygen.hmac_key_id;
      principal = principal;
      roles = roles;
      allowed_cidrs = [];
      enabled = true;
      expires_at = expiry_of expiry;
      created_at = now;
      updated_at = now;
    }

    -- The compensation of a creation that is not audited.
    unfoldable pub undo_create : Conditions → State → Text → State
    undo_create c s id =
        if c.undo_fails
        then record s { inconsistency_total = s.inconsistency_total + 1 }
        else record s { keys = (delete s.keys id).0 }

    abbrev pub after_create :
        Conditions → State → KeyRecord → Text → Keys × Option Error → State × Reply
    after_create c s rec secret (new_keys, some e) = (s, internal_error)
    after_create c s rec secret (new_keys, none) =
        let stored = record s { keys = new_keys } in
        if c.audit_fails
        then (undo_create c stored rec.id, error 500 (codes "audit logging failed"))
        else (
          record stored { trail = (rec.id, codes "create") ∷ s.trail },
          created rec.id secret rec.principal rec.roles,
        )

    unfoldable pub store_key : Conditions → State → KeyRecord → Text → State × Reply
    unfolding undo_create
    store_key c s rec secret =
        if c.writes_fail
        then (s, internal_error)
        else after_create c s rec secret (create s.keys rec c.now)

    -- createKey from the generated ID and secret on.
    unfoldable pub create_with :
        Conditions → State → Text → Text → Text → List Text → Expiry → State × Reply
    unfolding store_key
    create_with c s id secret principal roles (rejected message) = (s, error 400 message)
    create_with c s id secret principal roles never =
        store_key c s (new_record c.now id secret principal roles never) secret
    create_with c s id secret principal roles (at t) =
        store_key c s (new_record c.now id secret principal roles (at t)) secret

    unfoldable pub generate :
        Conditions → State → Random → CreateKeyRequest → List Text → State × Reply
    unfolding create_with
    generate c s random req roles = elim (generate_key_id crypto encode_to_string random) [
      | none ↦ (s, internal_error)
      | some id ↦ elim (generate_secret crypto encode_to_string random) [
        | none ↦ (s, internal_error)
        | some secret ↦
            create_with c s id secret req.principal roles (parse_expiry c.now req.expires_at)
      ]
    ]

    unfoldable pub create_for :
        Conditions → State → Random → CreateKeyRequest → Validated → State × Reply
    unfolding generate
    create_for c s random req (invalid message) = (s, error 400 message)
    create_for c s random req (valid roles) = generate c s random req roles

    unfoldable pub create_key :
        Conditions → State → Random → Option CreateKeyRequest → State × Reply
    unfolding create_for
    create_key c s random none = (s, invalid_json)
    create_key c s random (some req) =
        if text_eq req.principal []
        then (s, error 400 (codes "principal is required"))
        else if ltb max_principal_len (length req.principal)
        then (s, error 400 (codes "principal exceeds maximum length of 256"))
        else create_for c s random req (validate_roles req.roles)

    -- rotateKey from the record on.
    unfoldable pub rotate_found : Conditions → State → Text → Option Text → State × Reply
    rotate_found c s id none = (s, internal_error)
    rotate_found c s id (some secret) = mutation c s id (codes "rotate") (rotated id secret) (
        update_hash s.keys id (hash crypto encode_to_string keygen secret) keygen.hmac_key_id c.now)

    unfoldable pub rotate_key : Conditions → State → Random → Text → State × Reply
    unfolding rotate_found
    rotate_key c s random id = elim (look_up c s.keys id) [
      | failed ↦ (s, internal_error)
      | absent ↦ (s, not_found)
      | found rec ↦ rotate_found c s id (generate_secret crypto encode_to_string random)
    ]
