-- ===== src/Pipeline/Tests.antt =====
-- A request through all middlewares, with the key that the admin API's tests create.
use pdag.Common.{
  ℕ, ◌≡◌, ◌⊎◌, refl, Bool, true, false, Text, codes, List, [], ◌∷◌, ◌++◌, Option, none, some, pos,
  arith,
}
use pdag.Store.{get_by_id}
use pdag.Authn.{Secrets, Found}
use pdag.Admin.{found_or_absent}
use pdag.Admin.Tests.{padding, hosts, id, secret, with_alice}
use pdag.RateLimit.{new}
use pdag.Authz as Authz
use pdag.Manager.{Result, allows}
use pdag.Audit.{Encoding}
use pdag.AuditLog.{new_logger}
use pdag.Context.{background}
use pdag.Pipeline.{Request, World, Options, Moment, proxy, serve}
use pdag.Pipeline.Gate.{Passed, inner_context, serve_gate}
use pdag.Pipeline.Trail.{
  Logged, Accounted, entries_name_nobody, panic_unlogged, forwarded_is_logged,
}

abbrev encoding : Encoding
encoding = record {
  is_valid = λ s. true;
  unmarshal = λ s. none;
  marshal = λ v. none;
  quote = λ s. s;
  to_lower = λ s. s;
}

abbrev secrets : Secrets
secrets = (codes "h", codes "0123456789abcdef") ∷ []

abbrev keys : Text → Found
keys key_id = found_or_absent (get_by_id with_alice.keys key_id)

abbrev allow_all : List Text → Authz.HttpRequest → Result
allow_all roles req = record { decision = allows; plugin = codes "p"; reason = [] }

abbrev request : Request
request = record {
  http = record {
    method = codes "GET";
    scheme = [];
    url_host = [];
    path = codes "/api";
    raw_query = [];
    host = [];
    header = (codes "X-Api-Key", (id ++ b':' ∷ secret) ∷ []) ∷ [];
    content_length = pos 0;
    remote_addr = codes "h";
  };
  body = none;
}

abbrev moment : Moment
moment = record { now = 5; timestamp = 5; latency_ms = 1; gives_up = false; uuid = codes "u" }

abbrev world : World
world = record {
  limiter = new 1 1 50;
  log = new_logger 4;
  counted = [];
  forwarded = [];
  waits = false;
  status_code = 0;
  body_size = 0;
  body_bytes = [];
  authz_result = record { decision = []; plugin = []; reason = [] };
  panicked = false;
}

abbrev options : Bool → Options
options fail_closed = record {
  log_body = true;
  fail_closed = fail_closed;
  body_max_bytes = 0;
  redact_fields = [];
}

abbrev run : Bool → (Request → Option ℕ) → World
run fail_closed backend =
    serve hosts padding (λ ip. ip) encoding (options fail_closed) [] secrets keys 10 allow_all
      backend moment request world

serve_gate_example :
    ((run true (λ r. some 200)).forwarded ≡ [])
    ⊎ Passed hosts padding
        (λ ip. ip)
        encoding
        (options true)
        []
        secrets
        keys
        10
        allow_all
        (λ r. some 200)
        moment
        (inner_context hosts padding
          (λ ip. ip)
          encoding
          (options true)
          []
          secrets
          keys
          10
          allow_all
          (λ r. some 200)
          moment)
        request
        world
        (run true (λ r. some 200))
serve_gate_example =
    serve_gate hosts padding (λ ip. ip) encoding (options true) [] secrets keys 10 allow_all
      (λ r. some 200) moment request world

entries_name_nobody_example :
    Logged hosts padding
      (λ ip. ip)
      encoding
      (options true)
      []
      secrets
      keys
      10
      allow_all
      (λ r. some 200)
      moment
      world.log
      (run true (λ r. some 200)).log
entries_name_nobody_example =
    entries_name_nobody hosts padding (λ ip. ip) encoding (options true) [] secrets keys 10
      allow_all (λ r. some 200) moment request world

aborted : (proxy (λ r. none) request background world).panicked ≡ true
unfolding proxy
aborted = refl

panic_unlogged_example :
    ((run false (λ r. none)).panicked ≡ false) ⊎ ((run false (λ r. none)).log ≡ world.log)
panic_unlogged_example =
    panic_unlogged hosts padding (λ ip. ip) encoding (options false) [] secrets keys 10 allow_all
      (λ r. none) moment request world refl

forwarded_is_logged_example :
    Accounted hosts padding
      (λ ip. ip)
      encoding
      (options true)
      []
      secrets
      keys
      10
      allow_all
      (λ r. some 200)
      moment
      request
      world
      (run true (λ r. some 200))
unfolding new_logger
forwarded_is_logged_example =
    forwarded_is_logged hosts padding (λ ip. ip) encoding (options true) [] secrets keys 10
      allow_all (λ r. some 200) moment request world refl
      (record { accounted = omega arith; within_size = omega arith })
