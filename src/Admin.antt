-- ===== src/Admin.antt =====
-- internal/admin/server.go: what the handlers of the admin API share. The store is that of Store; the
-- errors that another store's database can have come with the request, and a call that fails changes
-- nothing. A request's body is decoded already: `none` is an error of strictDecode.
pub mod Keygen
pub mod Handlers
pub mod Server
pub mod Roles
pub mod Settled
pub mod Invariant
pub mod Creation
pub mod Limits
pub mod Rotation
pub mod Trail
pub mod Issued
pub mod Lifecycle
pub mod Access
pub mod Tests
use pdag.Common.{
  ℕ, ◌+◌, Bool, true, false, ◌||◌, Text, codes, text_eq, trim_space, List, [], ◌∷◌, Option, none,
  some, length, is_empty, ltb, if◌then◌else◌, ℤ,
}
use pdag.Store.{KeyRecord, Keys, Error, already_exists, key_not_found, get_by_id}
use pdag.Authn.{Found, failed, absent, found}

abbrev pub max_principal_len : ℕ
max_principal_len = 256

abbrev pub max_roles : ℕ
max_roles = 64

abbrev pub max_role_len : ℕ
max_role_len = 128

abbrev pub max_allowed_cidrs : ℕ
max_allowed_cidrs = 256

-- An event that AuditKeyEvent has written: the key's ID and the action.
abbrev pub AuditEvent : Type 0
AuditEvent = Text × Text

-- The store, the events that it has written, the latest first, and the counter audit_inconsistency_total.
pub record State : Type 0 where
  pub keys : Keys
  pub trail : List AuditEvent
  pub inconsistency_total : ℕ

-- When a request is served, and which kinds of the store's calls fail then: those that read, those that
-- write, AuditKeyEvent, and the Delete that takes a creation back.
pub record Conditions : Type 0 where
  pub now : ℕ
  pub reads_fail : Bool
  pub writes_fail : Bool
  pub audit_fails : Bool
  pub undo_fails : Bool

-- keyResponse
pub record KeyResponse : Type 0 where
  pub id : Text
  pub principal : Text
  pub roles : List Text
  pub allowed_cidrs : List Text
  pub enabled : Bool
  pub expires_at : Option ℕ
  pub created_at : ℕ

pub data Reply : Type 0 where
  error : ℕ → Text → Reply
  no_content : Reply
  one_key : KeyResponse → Reply
  key_list : List KeyResponse → Reply
  created : Text → Text → Text → List Text → Reply
  rotated : Text → Text → Reply
  deleted : ℕ → Reply

abbrev pub internal_error : Reply
internal_error = error 500 (codes "internal error")

abbrev pub not_found : Reply
not_found = error 404 (codes "key not found")

abbrev pub found_or_absent : Option KeyRecord → Found
found_or_absent none = absent
found_or_absent (some rec) = found rec

unfoldable pub look_up : Conditions → Keys → Text → Found
look_up c keys id = if c.reads_fail then failed else found_or_absent (get_by_id keys id)

-- auditMutation, with the reply to a mutation that is audited.
unfoldable pub audit_mutation : Conditions → State → Text → Text → Reply → State × Reply
audit_mutation c s id action reply =
    if c.audit_fails
    then (
      record s { inconsistency_total = s.inconsistency_total + 1 },
      error 500 (codes "audit logging failed"),
    )
    else (record s { trail = (id, action) ∷ s.trail }, reply)

-- What follows a mutation's call of the store.
unfoldable pub after_write :
    Conditions → State → Text → Text → Reply → Keys × Option Error → State × Reply
unfolding audit_mutation
after_write c s id action reply (keys, none) =
    audit_mutation c (record s { keys = keys }) id action reply
after_write c s id action reply (keys, some key_not_found) = (s, not_found)
after_write c s id action reply (keys, some already_exists) = (s, internal_error)

-- A call of the store that writes, with its errors and its audit event.
unfoldable pub mutation :
    Conditions → State → Text → Text → Reply → Keys × Option Error → State × Reply
unfolding after_write
mutation c s id action reply result =
    if c.writes_fail then (s, internal_error) else after_write c s id action reply result

-- What validateRoles returns: the trimmed roles, or its error.
pub data Validated : Type 0 where
  valid : List Text → Validated
  invalid : Text → Validated

abbrev pub and_role : Text → Validated → Validated
and_role role (valid cleaned) = valid (role ∷ cleaned)
and_role role (invalid message) = invalid message

-- The loop of validateRoles.
unfoldable pub clean_roles : List Text → Validated
clean_roles [] = valid []
clean_roles (role ∷ roles) =
    let rest = clean_roles roles in
    let trimmed = trim_space role in
    if text_eq trimmed []
    then invalid (codes "roles must not be empty or blank")
    else if ltb max_role_len (length trimmed)
    then invalid (codes "role exceeds maximum length of 128")
    else and_role trimmed rest

unfoldable pub validate_roles : List Text → Validated
validate_roles roles =
    if is_empty roles
    then invalid (codes "at least one role is required")
    else if ltb max_roles (length roles)
    then invalid (codes "too many roles (max 64)")
    else clean_roles roles
