-- ===== src/Authn.antt =====
-- internal/authn/hmac/middleware.go and hmac.go: who makes a request. The hash and the hexadecimal
-- digits are those of the packages crypto/hmac and encoding/hex, and parameters; hmac.Equal is equality
-- of bytes. Each request is given the time at which it reads the clock. Beside the answer stand the label
-- that the counter and the span get, and each message that was hashed, with its key.
pub mod Verify
pub mod Admission
mod Tests
use pdag.Common.{
  ℕ, Bool, true, false, not, ◌||◌, ◌==◌, Text, codes, text_eq, List, [], ◌∷◌, Option, none, some,
  length, any, is_empty, ltb, if◌then◌else◌, lookup,
}
use pdag.Header.{get}
use pdag.ClientIp.{Net, Request, client_ip}
use pdag.Store.{KeyRecord, expires_before}

-- What is used of crypto/hmac with SHA-256, under a key and for a message, and of hex.DecodeString.
pub record Crypto : Type 0 where
  pub hmac : Text → Text → Text
  pub decode_string : Text → Option Text

-- strings.Cut with a separator of one byte, `none` if it is not there.
unfoldable pub cut : ℕ → Text → Option (Text × Text)
cut sep [] = none
cut sep (c ∷ s) =
    let rest = cut sep s in
    if c == sep then some ([], s) else elim rest [ none ↦ none | some (a, b) ↦ some (c ∷ a, b) ]

-- The map from the ID of an HMAC secret to the secret.
abbrev pub Secrets : Type 0
Secrets = List (Text × Text)

abbrev pub Macs : Type 0
Macs = List (Text × Text)

-- The errors of Authenticate; `invalid_credentials` is ErrInvalidCredentials.
pub data AuthError : Type 0 where
  secret_not_found secret_empty undecodable_hash invalid_credentials : AuthError

-- What GetByID of the key store gives: an error, nil, or a record.
pub data Found : Type 0 where
  failed absent : Found
  found : KeyRecord → Found

pub record Identity : Type 0 where
  pub principal : Text
  pub key_id : Text
  pub roles : List Text

-- http.Error with its status, or the next handler with the values of its context.
pub data Reply : Type 0 where
  error : ℕ → Text → Reply
  next : Identity → Reply

pub record Outcome : Type 0 where
  pub reply : Reply
  pub label : Text
  pub macs : Macs

abbrev pub deny : Text → Macs → Outcome
deny label macs = record {
  reply = error 401 (codes "invalid credentials");
  label = label;
  macs = macs;
}

abbrev pub internal_error : Text → Macs → Outcome
internal_error label macs = record {
  reply = error 500 (codes "internal error");
  label = label;
  macs = macs;
}

abbrev pub identity : KeyRecord → Identity
identity rec = record { principal = rec.principal; key_id = rec.id; roles = rec.roles }

abbrev pub sha256_size : ℕ
sha256_size = 32

abbrev pub decoy_secret : Text
decoy_secret = codes "pdag-decoy-hmac-secret"

module _ (crypto : Crypto) where
  open crypto use {hmac, decode_string}

  -- `none` is the error of a hash that is not hexadecimal.
  unfoldable pub verify : Text → Text → Text → Option Bool × Macs
  verify provided stored_hash hmac_secret = elim (decode_string stored_hash) [
    | none ↦ (none, [])
    | some expected ↦
        if length expected == sha256_size
        then (some (text_eq (hmac hmac_secret provided) expected), (hmac_secret, provided) ∷ [])
        else (some false, [])
  ]

  abbrev pub verdict : Option Bool → Option AuthError
  verdict none = some undecodable_hash
  verdict (some true) = none
  verdict (some false) = some invalid_credentials

  unfoldable pub authenticate : Secrets → Text → KeyRecord → Option AuthError × Macs
  authenticate secrets secret rec = elim (lookup rec.hmac_key_id secrets) [
    | none ↦ (some secret_not_found, [])
    | some hmac_secret ↦
        if text_eq hmac_secret []
        then (some secret_empty, [])
        else (let (match, macs) = verify secret rec.key_hash hmac_secret in (verdict match, macs))
  ]

  abbrev pub dummy_verify : Text → Macs
  dummy_verify secret = (decoy_secret, secret) ∷ []

  module _ (net : Net) where
    open net use {Ip, IpNet, parse_cidr, net_contains}

    -- The loop over AllowedCIDRs.
    unfoldable pub is_allowed : List Text → Ip → Bool
    is_allowed [] ip = false
    is_allowed (cidr ∷ cidrs) ip =
        let rest = is_allowed cidrs ip in
        elim (parse_cidr cidr) [
          | none ↦ rest
          | some ip_net ↦ if net_contains ip_net ip then true else rest
        ]

    abbrev pub success : KeyRecord → Macs → Outcome
    success rec macs = record { reply = next (identity rec); label = codes "success"; macs = macs }

    -- The allowlist.
    unfoldable pub check_source : List IpNet → Request → KeyRecord → Macs → Outcome
    check_source trusted req rec macs =
        if is_empty rec.allowed_cidrs then success rec macs else elim (client_ip net trusted req) [
          | none ↦ deny (codes "invalid_source_ip") macs
          | some ip ↦
              if is_allowed rec.allowed_cidrs ip
              then success rec macs
              else deny (codes "ip_not_allowed") macs
        ]

    -- What follows a verified secret.
    unfoldable pub check_key : List IpNet → Request → ℕ → KeyRecord → Macs → Outcome
    check_key trusted req now rec macs =
        if not rec.enabled
        then deny (codes "disabled") macs
        else if expires_before now rec.expires_at
        then deny (codes "expired") macs
        else check_source trusted req rec macs

    -- What follows the call of Authenticate.
    unfoldable pub after_secret :
        List IpNet → Request → ℕ → KeyRecord → Option AuthError × Macs → Outcome
    after_secret trusted req now rec (none, macs) = check_key trusted req now rec macs
    after_secret trusted req now rec (some invalid_credentials, macs) =
        deny (codes "invalid_credentials") macs
    after_secret trusted req now rec (some secret_not_found, macs) =
        internal_error (codes "authn_error") macs
    after_secret trusted req now rec (some secret_empty, macs) =
        internal_error (codes "authn_error") macs
    after_secret trusted req now rec (some undecodable_hash, macs) =
        internal_error (codes "authn_error") macs

    -- What follows the call of GetByID.
    unfoldable pub answer : Secrets → List IpNet → Request → ℕ → Text → Found → Outcome
    answer secrets trusted req now secret failed = internal_error (codes "store_error") []
    answer secrets trusted req now secret absent = deny (codes "unknown_key") (dummy_verify secret)
    answer secrets trusted req now secret (found rec) =
        after_secret trusted req now rec (authenticate secrets secret rec)

    abbrev pub refuse : Text → Text → Outcome
    refuse label body = record { reply = error 401 body; label = label; macs = [] }

    -- Middleware
    unfoldable pub serve_http : Secrets → (Text → Found) → List IpNet → Request → ℕ → Outcome
    serve_http secrets get_by_id trusted req now =
        let api_key = get req.headers (codes "X-API-Key") in
        if text_eq api_key []
        then refuse (codes "missing_header") (codes "missing X-API-Key header")
        else elim (cut b':' api_key) [
          | none ↦ refuse (codes "malformed_header") (codes "malformed X-API-Key header")
          | some (key_id, secret) ↦
              if text_eq key_id [] || text_eq secret []
              then refuse (codes "malformed_header") (codes "malformed X-API-Key header")
              else answer secrets trusted req now secret (get_by_id key_id)
        ]
