-- ===== src/Context.antt =====
-- internal/middleware/context.go: the values that a request's context carries. A pointer in it is whether it
-- is there: what it points to is shared by all middlewares of the request, and stands in Pipeline's World.
use pdag.Common.{Bool, true, false, Text, codes, text_eq, map, List, [], ◌∷◌, if◌then◌else◌}
use pdag.Header.{Header, canonical_header_key}

pub record AuthzResult : Type 0 where
  pub decision : Text
  pub plugin : Text
  pub reason : Text

pub record Context : Type 0 where
  pub request_id : Text
  pub principal : Text
  pub key_id : Text
  pub roles : List Text
  pub body_bytes : Text
  pub body_size_ptr : Bool
  pub body_bytes_ptr : Bool
  pub authz_result_ptr : Bool
  pub status_code_ptr : Bool

abbrev pub background : Context
background = record {
  request_id = [];
  principal = [];
  key_id = [];
  roles = [];
  body_bytes = [];
  body_size_ptr = false;
  body_bytes_ptr = false;
  authz_result_ptr = false;
  status_code_ptr = false;
}

abbrev pub with_request_id : Context → Text → Context
with_request_id ctx id = record ctx { request_id = id }

abbrev pub with_principal : Context → Text → Context
with_principal ctx principal = record ctx { principal = principal }

abbrev pub with_key_id : Context → Text → Context
with_key_id ctx key_id = record ctx { key_id = key_id }

abbrev pub with_roles : Context → List Text → Context
with_roles ctx roles = record ctx { roles = roles }

abbrev pub with_body_bytes : Context → Text → Context
with_body_bytes ctx body = record ctx { body_bytes = body }

abbrev pub with_body_size_ptr : Context → Context
with_body_size_ptr ctx = record ctx { body_size_ptr = true }

abbrev pub with_body_bytes_ptr : Context → Context
with_body_bytes_ptr ctx = record ctx { body_bytes_ptr = true }

abbrev pub with_authz_result_ptr : Context → Context
with_authz_result_ptr ctx = record ctx { authz_result_ptr = true }

abbrev pub with_status_code_ptr : Context → Context
with_status_code_ptr ctx = record ctx { status_code_ptr = true }

-- SanitizeHeaders
unfoldable pub sanitize_headers : Header → Header
sanitize_headers [] = []
sanitize_headers ((key, values) ∷ h) =
    (
      key,
      (if text_eq (canonical_header_key key) (codes "X-Api-Key")
          then map (λ v. codes "REDACTED") values
          else values),
    )
    ∷ sanitize_headers h
