-- ===== src/AuditLog/Reservation.antt =====
-- Fail-closed mode, in which all entries come by a reservation: a commit does not wait.
use pdag.Common.{
  ℕ, ◌+◌, ◌-◌, ◌≤◌, ◌<◌, ◌≡◌, refl, sym, ap, subst, Bool, true, ◌&&◌, List, [], ◌∷◌, none, some,
  is_some, arith, length, length-append, is_empty, ltb, ltb→lt, lt→ltb, inl, inr, Bool-cases,
  Option-cases, All, not, &&-eq-true,
}
use pdag.AuditLog.{
  Entry, Logger, new_logger, enqueue, reserve, commit, write_and_release, Event, publishes, commits,
  reserves, writes, takes, reopens, reopened, closes, exits, step, run, take_entry, finish_write,
  waiting,
}
use pdag.AuditLog.Order.{After, in_hand}

-- Each permit that is taken is for a reservation that is not committed, for an entry in the channel, or for
-- the one that is being written.
pub record Permits (l : Logger) : Type 0 where
  pub accounted : l.reserved + (length l.ch + length (in_hand l.writing)) ≡ l.sem
  pub within_size : l.sem ≤ l.size

-- A step of fail-closed mode.
abbrev pub IsReserving : Event → Type 0
IsReserving (publishes e gives_up) = ⊥
IsReserving _ = Unit

commits-Permits : (l : Logger) (e : Entry) → Permits l → After Permits (step l (commits e))
unfolding step commit enqueue
commits-Permits l e h = elim (Bool-cases (ltb 0 l.reserved)) [
  | inr n ↦ rw (n, step) tt
  | inl t ↦ elim (Bool-cases (ltb (length l.ch) l.size)) [
    | inr full ↦ rw (t, full, step) tt
    | inl room ↦
        let some_left = ltb→lt 0 l.reserved t in
        rw (t, room, step)
          (record {
            accounted = omega (arith, h.accounted, length-append l.ch (e ∷ []), some_left);
            within_size = h.within_size;
          })
  ]
]

take-Permits :
    (l : Logger) (ch : List Entry)
    → l.writing ≡ none
    → l.ch ≡ ch
    → Permits l
    → After Permits (take_entry l ch)
unfolding take_entry
take-Permits l [] w c h = tt
take-Permits l (e ∷ ch) w c h = record {
  accounted = omega (arith, h.accounted, ap length c, ap (λ v. length (in_hand v)) w);
  within_size = h.within_size;
}

takes-Permits : (l : Logger) → Permits l → After Permits (step l takes)
unfolding step
takes-Permits l h = elim (Option-cases l.writing) [
  | inr (e, w) ↦ elim (Bool-cases l.done) [ inl d ↦ rw (d, step) tt | inr d ↦ rw (d, w, step) tt ]
  | inl w ↦ elim (Bool-cases l.done) [
    | inl d ↦ rw (d, step) tt
    | inr d ↦
        let idle : waiting l ≡ true = rw (d, w) refl in
        rw (idle, step) (take-Permits l l.ch w refl h)
  ]
]

write-Permits :
    (l : Logger) (e : Entry) (encodes : Bool)
    → l.writing ≡ some e
    → Permits l
    → Permits (write_and_release l e encodes)
unfolding write_and_release
write-Permits l e encodes w h =
    let count : l.reserved + (length l.ch + 0) ≡ l.sem - 1 =
      omega (arith, h.accounted, ap (λ v. length (in_hand v)) w) in
    let bound : l.sem - 1 ≤ l.size = omega (arith, h.within_size) in
    elim (Bool-cases encodes) [
      | inl t ↦ rw (t, write_and_release) (record { accounted = count; within_size = bound })
      | inr f ↦ rw (f, write_and_release) (record { accounted = count; within_size = bound })
    ]

writes-Permits : (l : Logger) (encodes : Bool) → Permits l → After Permits (step l (writes encodes))
unfolding step finish_write
writes-Permits l encodes h = elim (Option-cases l.writing) [
  | inl w ↦ rw (w, step) tt
  | inr (e, w) ↦
      let there : finish_write l encodes l.writing ≡ some (write_and_release l e encodes) =
        rw w refl in
      subst (After Permits) (sym there) (write-Permits l e encodes w h)
]

reserve-Permits : (l : Logger) (gives_up : Bool) → Permits l → Permits (reserve l gives_up).0
unfolding reserve
reserve-Permits l gives_up h = elim (Bool-cases l.closed) [
  | inl c ↦ rw (c, reserve) (record { accounted = h.accounted; within_size = h.within_size })
  | inr c ↦ elim (Bool-cases gives_up) [
    | inl g ↦ rw (c, g, reserve) (record { accounted = h.accounted; within_size = h.within_size })
    | inr g ↦ elim (Bool-cases (ltb l.sem l.size)) [
      | inr f ↦
          rw (c, g, f, reserve) (record { accounted = h.accounted; within_size = h.within_size })
      | inl t ↦
          let room = ltb→lt l.sem l.size t in
          rw (c, g, t, reserve)
            (record { accounted = omega (arith, h.accounted); within_size = omega (arith, room) })
    ]
  ]
]

exits-Permits : (l : Logger) → Permits l → After Permits (step l exits)
unfolding step
exits-Permits l h = elim (Bool-cases (waiting l && (l.closed && is_empty l.ch))) [
  | inl t ↦ rw (t, step) (record { accounted = h.accounted; within_size = h.within_size })
  | inr f ↦ rw (f, step) tt
]

reopened-Permits : (l : Logger) → Permits l → After Permits (step l reopened)
unfolding step
reopened-Permits l h = elim (Bool-cases (waiting l && l.reopen)) [
  | inl t ↦ rw (t, step) (record { accounted = h.accounted; within_size = h.within_size })
  | inr f ↦ rw (f, step) tt
]

step-Permits : (l : Logger) (e : Event) → IsReserving e → Permits l → After Permits (step l e)
unfolding step
step-Permits l (publishes e gives_up) r h = absurd r
step-Permits l (reserves gives_up) r h = reserve-Permits l gives_up h
step-Permits l (commits e) r h = commits-Permits l e h
step-Permits l takes r h = takes-Permits l h
step-Permits l (writes encodes) r h = writes-Permits l encodes h
step-Permits l reopens r h = record { accounted = h.accounted; within_size = h.within_size }
step-Permits l reopened r h = reopened-Permits l h
step-Permits l closes r h = record { accounted = h.accounted; within_size = h.within_size }
step-Permits l exits r h = exits-Permits l h

run-Permits :
    (l : Logger) (es : List Event) → All IsReserving es → Permits l → After Permits (run l es)
unfolding run
run-Permits l [] a h = h
run-Permits l (e ∷ es) a h = elim (Option-cases (step l e)) [
  | inl n ↦ rw (n, run) tt
  | inr (k, s) ↦
      let here : Permits k = subst (After Permits) s (step-Permits l e a.0 h) in
      rw (s, run) (run-Permits k es a.1 here)
]

-- A permit that Reserve gives has its room in the channel.
pub reserve-room :
    (l : Logger) (gives_up : Bool)
    → Permits l
    → (reserve l gives_up).1 ≡ true
    → ltb (length (reserve l gives_up).0.ch) (reserve l gives_up).0.size ≡ true
unfolding reserve
reserve-room l gives_up h p = elim (Bool-cases l.closed) [
  | inl c ↦ absurd (ground arith)
  | inr c ↦ elim (Bool-cases (not gives_up && ltb l.sem l.size)) [
    | inr f ↦ absurd (ground arith)
    | inl g ↦
        let free = ltb→lt l.sem l.size (&&-eq-true (not gives_up) _ g).1 in
        let room : length l.ch < l.size = omega (arith, h.accounted, free) in
        rw (c, g, reserve) (lt→ltb (length l.ch) l.size room)
  ]
]

-- After any steps of a new logger without Publish, a commit of a reservation that is not committed does not
-- wait for room in the channel.
pub commit_never_waits :
    (size : ℕ) (es : List Event) (l : Logger) (e : Entry)
    → All IsReserving es
    → run (new_logger size) es ≡ some l
    → 0 < l.reserved
    → is_some (step l (commits e)) ≡ true
unfolding new_logger step commit
commit_never_waits size es l e a r reserved =
    let h : Permits l = subst (After Permits) r (
      run-Permits (new_logger size) es a
        (record { accounted = omega arith; within_size = omega arith })) in
    let room : length l.ch < l.size = omega (arith, h.accounted, h.within_size, reserved) in
    rw (lt→ltb 0 l.reserved reserved, lt→ltb (length l.ch) l.size room, step) refl
