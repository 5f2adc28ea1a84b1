-- ===== src/AuditLog.antt =====
-- internal/audit/file/logger.go: the audit log's channel, the semaphore of the reservations and the loop
-- that writes, as steps that goroutines take in any order; Entry is that of internal/audit/audit.go.
-- A step that has to wait is not possible yet: it is `none`. Whether a select gives up (its timer or the
-- context is done) and whether the encoder succeeds is part of the step. The file itself is outside.
pub mod Order
pub mod Reservation
mod Tests
use pdag.Common.{
  ℕ, suc, ◌+◌, ◌-◌, Bool, true, false, not, ◌&&◌, ◌||◌, Text, List, [], ◌∷◌, ◌++◌, Option, none,
  some, length, is_empty, ltb, if◌then◌else◌,
}

pub record Entry : Type 0 where
  pub timestamp : ℕ
  pub request_id : Text
  pub principal : Text
  pub key_id : Text
  pub method : Text
  pub path : Text
  pub query : Text
  pub source_ip : Text
  pub user_agent : Text
  pub status_code : ℕ
  pub latency_ms : ℕ
  pub authz_decision : Text
  pub authz_plugin : Text
  pub authz_reason : Text
  pub request_body : Option Text

-- The state of a Logger with a buffer of `size`: the channel, the oldest entry first; how many permits of
-- the semaphore are taken; the entry that the loop writes now. Beside it the two counters, the entries that
-- went to the encoder, and, for the theorems alone, the entries that came into the channel and the number
-- of reservations that are not committed.
pub record Logger : Type 0 where
  pub size : ℕ
  pub ch : List Entry
  pub sem : ℕ
  pub writing : Option Entry
  pub reopen : Bool
  pub closed : Bool
  pub done : Bool
  pub dropped : ℕ
  pub write_errors : ℕ
  pub encoded : List Entry
  pub accepted : List Entry
  pub reserved : ℕ

unfoldable pub new_logger : ℕ → Logger
new_logger size = record {
  size = size;
  ch = [];
  sem = 0;
  writing = none;
  reopen = false;
  closed = false;
  done = false;
  dropped = 0;
  write_errors = 0;
  encoded = [];
  accepted = [];
  reserved = 0;
}

unfoldable pub enqueue : Logger → Entry → Logger
enqueue l e = record l { ch = l.ch ++ e ∷ []; accepted = l.accepted ++ e ∷ [] }

unfoldable pub drop_full : Logger → Logger
drop_full l = record l { dropped = l.dropped + 1; write_errors = l.write_errors + 1 }

-- Publish, which may give up when its timer fires, even if there is room by then; with whether it returns no
-- error.
unfoldable pub publish : Logger → Entry → Bool → Logger × Bool
unfolding enqueue drop_full
publish l e gives_up =
    if l.closed
    then (drop_full l, false)
    else if not gives_up && ltb (length l.ch) l.size
    then (enqueue l e, true)
    else (drop_full l, false)

abbrev refuse_reservation : Logger → Logger
refuse_reservation l = record l { dropped = l.dropped + 1 }

-- Reserve, which may give up when its context is done.
unfoldable pub reserve : Logger → Bool → Logger × Bool
reserve l gives_up =
    if l.closed
    then (refuse_reservation l, false)
    else if not gives_up && ltb l.sem l.size
    then (record l { sem = l.sem + 1; reserved = l.reserved + 1 }, true)
    else (refuse_reservation l, false)

-- The function that Reserve returns: it waits until the channel has room.
unfoldable pub commit : Logger → Entry → Option Logger
unfolding enqueue
commit l e =
    if ltb (length l.ch) l.size
    then some (record (enqueue l e) { reserved = l.reserved - 1 })
    else none

-- flushLoop receives an entry.
take_entry : Logger → List Entry → Option Logger
take_entry l [] = none
take_entry l (e ∷ ch) = some (record l { ch = ch; writing = some e })

-- writeEntry and the release of a permit.
unfoldable pub write_and_release : Logger → Entry → Bool → Logger
write_and_release l e encodes =
    let released = record l { writing = none; sem = l.sem - 1; encoded = l.encoded ++ e ∷ [] } in
    if encodes then released else record released { write_errors = l.write_errors + 1 }

abbrev pub is_idle : Option Entry → Bool
is_idle none = true
is_idle (some e) = false

-- Reopen: a signal that is pending stays so.
abbrev pub reopen_log : Logger → Logger
reopen_log l = record l { reopen = true }

-- Close, up to its wait for the loop, which goes on until the channel is empty.
abbrev pub close : Logger → Logger
close l = record l { closed = true }

pub data Event : Type 0 where
  publishes : Entry → Bool → Event
  commits : Entry → Event
  reserves writes : Bool → Event
  takes reopens reopened closes exits : Event

finish_write : Logger → Bool → Option Entry → Option Logger
unfolding write_and_release
finish_write l encodes none = none
finish_write l encodes (some e) = some (write_and_release l e encodes)

-- The loop is between two writes.
abbrev waiting : Logger → Bool
waiting l = not l.done && is_idle l.writing

-- Each reservation is committed once, so that a commit wants one that is not committed.
unfoldable pub step : Logger → Event → Option Logger
unfolding publish reserve commit take_entry finish_write
step l (publishes e gives_up) = some (publish l e gives_up).0
step l (reserves gives_up) = some (reserve l gives_up).0
step l (commits e) = if ltb 0 l.reserved then commit l e else none
step l takes = if waiting l then take_entry l l.ch else none
step l (writes encodes) = finish_write l encodes l.writing
step l reopens = some (reopen_log l)
step l reopened = if waiting l && l.reopen then some (record l { reopen = false }) else none
step l closes = some (close l)
step l exits =
    if waiting l && (l.closed && is_empty l.ch) then some (record l { done = true }) else none

-- Steps one after the other, as far as they are possible.
unfoldable pub run : Logger → List Event → Option Logger
run l [] = some l
run l (e ∷ es) = elim (step l e) [ none ↦ none | some k ↦ run k es ]
