-- ===== src/Admin/Tests.antt =====
-- Requests to an admin API whose digits are the bytes plus 59 and whose digests are the padded messages.
use pdag.Common.{
  ℕ, ◌+◌, ◌-◌, ◌≡◌, ◌⊎◌, ◌≤◌, inl, refl, Bool, true, false, Text, text_eq, codes, List, [], ◌∷◌,
  ◌++◌, Option, none, some, map, take, length, length-take, length-append, contains_byte, lookup,
  arith, has_prefix, trim_prefix, trim_space, ◌↔◌, is_empty, erase, trim_left, is_space,
}
use pdag.ClientIp.{Net, Request}
use pdag.RateLimit.{new, allow}
use pdag.Store.{KeyRecord, create, get_by_id, update_hash, mutate}
use pdag.Authn.{Crypto, Secrets}
use pdag.Authn.Verify.{Verified}
use pdag.Admin.Access.{Guarded, guards_handlers}
use pdag.Admin.Trail.{handler_settles, Unrecorded}
use pdag.Admin.Settled.{Settled}
use pdag.Admin.Invariant.{AllProper}
use pdag.Admin.Limits.{serve_all-AllProper, serve_all}
use pdag.Admin.{
  State, Conditions, created, rotated, validate_roles, clean_roles, look_up, audit_mutation,
  after_write, mutation,
}
use pdag.Admin.Keygen.{Generator, Random}
use pdag.Admin.Handlers.{
  Parsers, CreateKeyRequest, create_key, create_for, generate, create_with, store_key, rotate_key,
  rotate_found, parse_expiry,
}
use pdag.Admin.Server.{create_route, delete_route, handler, Server, serve_http as admin_http}
use pdag.Admin.Issued.{Promises}
use pdag.Admin.Rotation.{rotate_key_lem, Rotates, rehashed}

abbrev zeros : Text
zeros = codes "00000000000000000000000000000000"

abbrev pub digits : Text → Text
digits [] = []
digits (b ∷ s) = (b + 59) ∷ digits s

abbrev bytes : Text → Text
bytes [] = []
bytes (b ∷ s) = (b - 59) ∷ bytes s

abbrev pub padding : Crypto
padding = record { hmac = λ k m. take 32 (m ++ zeros); decode_string = λ s. some (bytes s) }

bytes-digits : (s : Text) → bytes (digits s) ≡ s
bytes-digits [] = refl
bytes-digits (b ∷ s) = let e : b + 59 - 59 ≡ b = omega arith in rw (bytes-digits s, e)

digits-no_colon : (s : Text) → contains_byte b':' (digits s) ≡ false
unfolding contains_byte
digits-no_colon [] = refl
digits-no_colon (b ∷ s) = rw (digits-no_colon s) (ground arith)

size : (m : Text) → length (take 32 (m ++ zeros)) ≡ 32
size m = rw length-take (rw length-append (omega arith))

abbrev pub keygen : Generator
keygen = record { hmac_key_id = codes "h"; hmac_secret = codes "0123456789abcdef" }

abbrev pub parsers : Parsers
parsers = record { atoi = λ s. none; parse_time = λ s. none; is_cidr = λ s. true }

pub promises : Promises padding digits keygen
promises = record {
  decode-encode = λ x. (let e = bytes-digits x in rw e refl);
  no_colon = digits-no_colon;
  size = λ k m. size m;
}

abbrev pub hosts : Net
hosts = record {
  Ip = Text;
  IpNet = Text;
  parse_cidr = some;
  net_contains = text_eq;
  parse_ip = some;
  split_host_port = some;
}

abbrev pub calm : Conditions
calm = record {
  now = 3;
  reads_fail = false;
  writes_fail = false;
  audit_fails = false;
  undo_fails = false;
}

abbrev pub empty : State
empty = record { keys = []; trail = []; inconsistency_total = 0 }

abbrev pub random : Random
random = record { id_bytes = some (1 ∷ []); secret_bytes = some (2 ∷ []) }

abbrev pub request_body : CreateKeyRequest
request_body = record { principal = codes "alice"; roles = codes " admin" ∷ []; expires_at = none }

abbrev pub id : Text
id = codes "k_" ++ digits (1 ∷ [])

abbrev pub secret : Text
secret = codes "pdg_" ++ digits (2 ∷ [])

abbrev pub alice : KeyRecord
alice = record {
  id = id;
  key_hash = digits (take 32 (secret ++ zeros));
  hmac_key_id = codes "h";
  principal = codes "alice";
  roles = codes "admin" ∷ [];
  allowed_cidrs = [];
  enabled = true;
  expires_at = none;
  created_at = 3;
  updated_at = 3;
}

abbrev pub with_alice : State
with_alice = record {
  keys = (id, alice) ∷ [];
  trail = (id, codes "create") ∷ [];
  inconsistency_total = 0;
}

pub alice_created :
    create_key parsers padding digits keygen calm empty random (some request_body)
    ≡ (with_alice, created id secret (codes "alice") (codes "admin" ∷ []))
unfolding create_key create_for generate create_with store_key create validate_roles clean_roles
    text_eq trim_space trim_left is_space lookup erase parse_expiry pdag.Common.put
alice_created = refl

abbrev pub login : Request
login = record {
  remote_addr = codes "a";
  headers =
      (codes "Authorization", codes "Bearer t" ∷ [])
      ∷ (codes "X-Api-Key", (id ++ b':' ∷ secret) ∷ [])
      ∷ [];
}

abbrev secrets : Secrets
secrets = (codes "h", codes "0123456789abcdef") ∷ []

abbrev server : Server
server = record { state = empty; limiter = new 1 1 50 }

guards_handlers_example :
    Guarded padding
      (codes "t")
      login
      (allow server.limiter (codes "a") 3).1
      (handler padding digits keygen parsers calm empty random (create_route (some request_body)))
      server
      (admin_http padding digits keygen parsers some
        (codes "t")
        calm
        server
        random
        login
        (create_route (some request_body)))
unfolding text_eq
guards_handlers_example =
    guards_handlers padding (codes "t") login digits keygen parsers some calm server random
      (create_route (some request_body))

handler_settles_example :
    Settled with_alice
      (handler padding digits keygen parsers calm with_alice random (delete_route id))
    ⊎ Unrecorded padding digits keygen parsers calm with_alice
        (delete_route id)
        (handler padding digits keygen parsers calm with_alice random (delete_route id))
handler_settles_example =
    handler_settles padding digits keygen parsers calm with_alice random (delete_route id)

abbrev renewed : KeyRecord
renewed = record alice { updated_at = 4 }

abbrev later : Conditions
later = record calm { now = 4 }

abbrev after_rotation : State
after_rotation = record {
  keys = (id, renewed) ∷ [];
  trail = (id, codes "rotate") ∷ (id, codes "create") ∷ [];
  inconsistency_total = 0;
}

alice_rotated :
    rotate_key parsers padding digits keygen later with_alice random id
    ≡ (after_rotation, rotated id secret)
unfolding rotate_key rotate_found look_up get_by_id lookup text_eq mutation after_write
    audit_mutation update_hash mutate pdag.Common.put erase
alice_rotated = refl

rotate_key_lem_example :
    (id ≡ id)
    × ((r : Rotates padding digits keygen parsers 4 with_alice.keys after_rotation.keys id secret)
        × Verified padding secrets secret (rehashed padding digits keygen parsers secret 4 r.old))
unfolding lookup text_eq
rotate_key_lem_example =
    rotate_key_lem padding digits keygen parsers promises secrets later with_alice after_rotation
      random id id secret refl (λ e. cc) alice_rotated

serve_all-AllProper_example :
    AllProper
      (λ s. true)
      (serve_all padding digits keygen parsers empty
        ((calm, random, create_route (some request_body)) ∷ [])).keys
serve_all-AllProper_example =
    serve_all-AllProper padding digits keygen parsers empty
      ((calm, random, create_route (some request_body)) ∷ []) tt
