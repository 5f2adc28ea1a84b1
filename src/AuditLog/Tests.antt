-- ===== src/AuditLog/Tests.antt =====
-- The audit log with a buffer of one entry.
use pdag.Common.{◌≡◌, refl, true, false, codes, [], ◌∷◌, none, is_some, arith}
use pdag.AuditLog.{
  Entry, Logger, new_logger, publish, reserve, commit, write_and_release, publishes, commits,
  reserves, writes, takes, step, run,
}
use pdag.AuditLog.Order.{InOrder, audit-InOrder}
use pdag.AuditLog.Reservation.{commit_never_waits}

abbrev login : Entry
login = record {
  timestamp = 1;
  request_id = codes "r";
  principal = codes "alice";
  key_id = codes "a";
  method = codes "GET";
  path = codes "/v1";
  query = [];
  source_ip = [];
  user_agent = [];
  status_code = 200;
  latency_ms = 2;
  authz_decision = codes "allow";
  authz_plugin = codes "admin";
  authz_reason = [];
  request_body = none;
}

abbrev reserved_one : Logger
reserved_one = record (new_logger 1) { sem = 1; reserved = 1 }

abbrev written_one : Logger
written_one = record (new_logger 1) {
  ch = login ∷ [];
  writing = none;
  encoded = login ∷ [];
  accepted = login ∷ login ∷ [];
  dropped = 1;
  write_errors = 1;
}

audit-InOrder_example : InOrder written_one
unfolding new_logger run step publish reserve commit write_and_release
audit-InOrder_example =
    audit-InOrder 1
      (reserves false
        ∷ commits login
        ∷ takes
        ∷ writes true
        ∷ publishes login false
        ∷ publishes login false
        ∷ [])
      written_one refl

commit_never_waits_example : is_some (step reserved_one (commits login)) ≡ true
unfolding new_logger run step reserve
commit_never_waits_example =
    commit_never_waits 1 (reserves false ∷ []) reserved_one login (tt, tt) refl (omega arith)
