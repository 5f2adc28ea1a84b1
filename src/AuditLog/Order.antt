-- ===== src/AuditLog/Order.antt =====
-- No entry is lost on the way from the channel to the encoder.
use pdag.Common.{
  ℕ, ◌≤◌, ◌<◌, ◌≡◌, refl, sym, ap, subst, ◌∙◌, Bool, true, not, ◌&&◌, List, [], ◌∷◌, ◌++◌, Option,
  none, some, arith, length, length-append, is_empty, ltb, ltb→lt, inl, inr, Bool-cases,
  Option-cases, &&-eq-true,
}
use pdag.AuditLog.{
  Entry, Logger, new_logger, enqueue, publish, reserve, commit, write_and_release, Event, publishes,
  commits, reserves, writes, takes, reopens, reopened, closes, exits, step, run, take_entry,
  finish_write, waiting,
}

abbrev pub in_hand : Option Entry → List Entry
in_hand none = []
in_hand (some e) = e ∷ []

-- What came into the channel is what was encoded, then what is being written, then what is still there.
pub record InOrder (l : Logger) : Type 0 where
  pub in_order : l.encoded ++ (in_hand l.writing ++ l.ch) ≡ l.accepted
  pub within_size : length l.ch ≤ l.size

-- A predicate of the state that a step leads to, if it is possible.
abbrev pub After : (Logger → Type 0) → Option Logger → Type 0
After P none = Unit
After P (some l) = P l

-- A predicate that possible steps keep holds after a run.
pub run-After :
    (P : Logger → Type 0) (l : Logger) (es : List Event)
    → ((k : Logger) (e : Event) → P k → After P (step k e))
    → P l
    → After P (run l es)
unfolding run
run-After P l [] keeps h = h
run-After P l (e ∷ es) keeps h = elim (Option-cases (step l e)) [
  | inl n ↦ rw (n, run) tt
  | inr (k, s) ↦
      let here : P k = subst (After P) s (keeps l e h) in rw (s, run) (run-After P k es keeps here)
]

append_assoc : (xs ys zs : List Entry) → xs ++ (ys ++ zs) ≡ (xs ++ ys) ++ zs
append_assoc [] ys zs = refl
append_assoc (x ∷ xs) ys zs = ap (λ r. x ∷ r) (append_assoc xs ys zs)

enqueue-InOrder :
    (l : Logger) (e : Entry) → length l.ch < l.size → InOrder l → InOrder (enqueue l e)
unfolding enqueue
enqueue-InOrder l e room h = record {
  in_order =
      ap (λ r. l.encoded ++ r) (append_assoc (in_hand l.writing) l.ch (e ∷ []))
      ∙ append_assoc l.encoded (in_hand l.writing ++ l.ch) (e ∷ [])
      ∙ ap (λ r. r ++ e ∷ []) h.in_order;
  within_size = omega (arith, length-append l.ch (e ∷ []), room);
}

publish-InOrder :
    (l : Logger) (e : Entry) (gives_up : Bool) → InOrder l → InOrder (publish l e gives_up).0
unfolding publish
publish-InOrder l e gives_up h = elim (Bool-cases l.closed) [
  | inl c ↦ rw (c, publish) (record { in_order = h.in_order; within_size = h.within_size })
  | inr c ↦ elim (Bool-cases (not gives_up && ltb (length l.ch) l.size)) [
    | inl room ↦
        let sent = enqueue-InOrder l e (ltb→lt _ _ (&&-eq-true (not gives_up) _ room).1) h in
        rw (c, room, publish) (record { in_order = sent.in_order; within_size = sent.within_size })
    | inr full ↦
        rw (c, full, publish) (record { in_order = h.in_order; within_size = h.within_size })
  ]
]

commit-InOrder : (l : Logger) (e : Entry) → InOrder l → After InOrder (step l (commits e))
unfolding step commit
commit-InOrder l e h = elim (Bool-cases (ltb 0 l.reserved)) [
  | inr n ↦ rw (n, step) tt
  | inl t ↦ elim (Bool-cases (ltb (length l.ch) l.size)) [
    | inr full ↦ rw (t, full, step) tt
    | inl room ↦
        let sent = enqueue-InOrder l e (ltb→lt _ _ room) h in
        rw (t, room, step) (record { in_order = sent.in_order; within_size = sent.within_size })
  ]
]

take-InOrder :
    (l : Logger) (ch : List Entry)
    → l.writing ≡ none
    → l.ch ≡ ch
    → InOrder l
    → After InOrder (take_entry l ch)
unfolding take_entry
take-InOrder l [] w c h = tt
take-InOrder l (e ∷ ch) w c h = record {
  in_order =
      subst (λ r. l.encoded ++ r ≡ l.accepted) c
        (subst (λ v. l.encoded ++ (in_hand v ++ l.ch) ≡ l.accepted) w h.in_order);
  within_size = omega (arith, ap length c, h.within_size);
}

takes-InOrder : (l : Logger) → InOrder l → After InOrder (step l takes)
unfolding step
takes-InOrder l h = elim (Option-cases l.writing) [
  | inr (e, w) ↦ elim (Bool-cases l.done) [ inl d ↦ rw (d, step) tt | inr d ↦ rw (d, w, step) tt ]
  | inl w ↦ elim (Bool-cases l.done) [
    | inl d ↦ rw (d, step) tt
    | inr d ↦
        let idle : waiting l ≡ true = rw (d, w) refl in
        rw (idle, step) (take-InOrder l l.ch w refl h)
  ]
]

write-InOrder :
    (l : Logger) (e : Entry) (encodes : Bool)
    → l.writing ≡ some e
    → InOrder l
    → InOrder (write_and_release l e encodes)
unfolding write_and_release
write-InOrder l e encodes w h =
    let order =
      sym (append_assoc l.encoded (e ∷ []) l.ch)
      ∙ subst (λ v. l.encoded ++ (in_hand v ++ l.ch) ≡ l.accepted) w h.in_order in
    elim (Bool-cases encodes) [
      | inl t ↦ rw (t, write_and_release) (record { in_order = order; within_size = h.within_size })
      | inr f ↦ rw (f, write_and_release) (record { in_order = order; within_size = h.within_size })
    ]

writes-InOrder : (l : Logger) (encodes : Bool) → InOrder l → After InOrder (step l (writes encodes))
unfolding step finish_write
writes-InOrder l encodes h = elim (Option-cases l.writing) [
  | inl w ↦ rw (w, step) tt
  | inr (e, w) ↦
      let kept = write-InOrder l e encodes w h in
      let there : finish_write l encodes l.writing ≡ some (write_and_release l e encodes) =
        rw w refl in
      subst (After InOrder) (sym there) kept
]

reserve-InOrder : (l : Logger) (gives_up : Bool) → InOrder l → InOrder (reserve l gives_up).0
unfolding reserve
reserve-InOrder l gives_up h = elim (Bool-cases l.closed) [
  | inl c ↦ rw (c, reserve) (record { in_order = h.in_order; within_size = h.within_size })
  | inr c ↦ elim (Bool-cases (not gives_up && ltb l.sem l.size)) [
    | inl t ↦ rw (c, t, reserve) (record { in_order = h.in_order; within_size = h.within_size })
    | inr f ↦ rw (c, f, reserve) (record { in_order = h.in_order; within_size = h.within_size })
  ]
]

exits-InOrder : (l : Logger) → InOrder l → After InOrder (step l exits)
unfolding step
exits-InOrder l h = elim (Bool-cases (waiting l && (l.closed && is_empty l.ch))) [
  | inl t ↦ rw (t, step) (record { in_order = h.in_order; within_size = h.within_size })
  | inr f ↦ rw (f, step) tt
]

reopened-InOrder : (l : Logger) → InOrder l → After InOrder (step l reopened)
unfolding step
reopened-InOrder l h = elim (Bool-cases (waiting l && l.reopen)) [
  | inl t ↦ rw (t, step) (record { in_order = h.in_order; within_size = h.within_size })
  | inr f ↦ rw (f, step) tt
]

step-InOrder : (l : Logger) (e : Event) → InOrder l → After InOrder (step l e)
unfolding step
step-InOrder l (publishes e gives_up) h = publish-InOrder l e gives_up h
step-InOrder l (reserves gives_up) h = reserve-InOrder l gives_up h
step-InOrder l (commits e) h = commit-InOrder l e h
step-InOrder l takes h = takes-InOrder l h
step-InOrder l (writes encodes) h = writes-InOrder l encodes h
step-InOrder l reopens h = record { in_order = h.in_order; within_size = h.within_size }
step-InOrder l reopened h = reopened-InOrder l h
step-InOrder l closes h = record { in_order = h.in_order; within_size = h.within_size }
step-InOrder l exits h = exits-InOrder l h

-- After any steps of a new logger, the entries that came into the channel are, in this order, those that
-- went to the encoder, the one that is being written, and those in the channel, each of them once; and the
-- channel has at most as many as its size.
pub audit-InOrder :
    (size : ℕ) (es : List Event) (l : Logger) → run (new_logger size) es ≡ some l → InOrder l
unfolding new_logger
audit-InOrder size es l r = subst (After InOrder) r (
    run-After InOrder (new_logger size) es step-InOrder
      (record { in_order = refl; within_size = omega arith }))
