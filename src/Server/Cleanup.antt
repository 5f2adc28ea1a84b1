-- ===== src/Server/Cleanup.antt =====
-- What the cleanup does to the keys.
use pdag.Common.{
  ℕ, ◌≡◌, refl, sym, ap, ◌∙◌, subst, true, false, Text, List, [], ◌∷◌, Option, none, some,
  Bool-cases, if◌then◌else◌, ltb, Distinct, All, arith, inl, inr, ◌⊎◌, ◌↔◌,
}
use pdag.Store.{KeyRecord, Keys, get_by_id, expires_before, delete_expired}
use pdag.Store.Expiry.{unexpired, delete_expired_lem}
use pdag.Store.Invariant.{purge-Distinct}
use pdag.Admin.{State, Conditions}
use pdag.Server.{clean_up, run_key_cleanup}

-- The keys after a tick.
abbrev kept_at : Conditions → Keys → Keys
kept_at c keys = if c.writes_fail then keys else (delete_expired keys c.now).0

keys-clean_up : (c : Conditions) (s : State) → (clean_up c s).keys ≡ kept_at c s.keys
unfolding clean_up
keys-clean_up c s = elim (Bool-cases c.writes_fail) [
  | inl w ↦ rw (w, clean_up) refl
  | inr w ↦ elim (Bool-cases (ltb 0 (delete_expired s.keys c.now).1)) [
    | inr n ↦ rw (w, clean_up) (rw n refl)
    | inl n ↦ elim (Bool-cases c.audit_fails) [
      | inl a ↦ rw (w, clean_up) (rw (n, a) refl)
      | inr a ↦ rw (w, clean_up) (rw (n, a) refl)
    ]
  ]
]

clean_up-Distinct : (c : Conditions) (s : State) → Distinct s.keys → Distinct (clean_up c s).keys
clean_up-Distinct c s d =
    subst Distinct (sym (keys-clean_up c s)) (elim (Bool-cases c.writes_fail) [
      | inl w ↦ rw w d
      | inr w ↦ rw w (purge-Distinct s.keys c.now d)
    ])

-- What a tick, and what the ticks leave of the record of one ID.
abbrev pub left_at : Conditions → Option KeyRecord → Option KeyRecord
left_at c rec = if c.writes_fail then rec else unexpired c.now rec

abbrev pub left_after : List Conditions → Option KeyRecord → Option KeyRecord
left_after [] rec = rec
left_after (c ∷ cs) rec = left_after cs (left_at c rec)

get_by_id-clean_up :
    (c : Conditions) (s : State) (id : Text)
    → Distinct s.keys
    → get_by_id (clean_up c s).keys id ≡ left_at c (get_by_id s.keys id)
get_by_id-clean_up c s id d =
    ap (λ ks. get_by_id ks id) (keys-clean_up c s) ∙ elim (Bool-cases c.writes_fail) [
      | inl w ↦ rw w refl
      | inr w ↦ rw w (delete_expired_lem s.keys c.now id d).0
    ]

get_by_id-run_key_cleanup :
    (cs : List Conditions) (s : State) (id : Text)
    → Distinct s.keys
    → get_by_id (run_key_cleanup cs s).keys id ≡ left_after cs (get_by_id s.keys id)
unfolding run_key_cleanup
get_by_id-run_key_cleanup [] s id d = refl
get_by_id-run_key_cleanup (c ∷ cs) s id d =
    get_by_id-run_key_cleanup cs (clean_up c s) id (clean_up-Distinct c s d)
    ∙ ap (left_after cs) (get_by_id-clean_up c s id d)

-- A tick that does not delete the record: the store fails, or the record does not expire before it.
abbrev pub Spares : KeyRecord → Conditions → Type 0
Spares rec c = (c.writes_fail ≡ true) ⊎ (expires_before c.now rec.expires_at ≡ false)

unexpired_iff :
    (now : ℕ) (before : Option KeyRecord) (rec : KeyRecord)
    → (unexpired now before ≡ some rec)
      ↔ ((before ≡ some rec) × (expires_before now rec.expires_at ≡ false))
unexpired_iff now none rec = (λ e. absurd (ground arith), λ p. absurd (ground arith))
unexpired_iff now (some old) rec = elim (Bool-cases (expires_before now old.expires_at)) [
  | inl x ↦ (
    λ e. (let e' = rw (x, unexpired) at e in absurd (ground arith)),
    λ p.
        (let q : old ≡ rec = cc in
          let y = subst (λ r. expires_before now r.expires_at ≡ true) q x in absurd (ground arith)),
  )
  | inr x ↦ (
    λ e.
        (let e' = rw (x, unexpired) at e in
          let q : old ≡ rec = cc in (e', subst (λ r. expires_before now r.expires_at ≡ false) q x)),
    λ p. rw (x, unexpired) p.0,
  )
]

left_at_iff :
    (c : Conditions) (before : Option KeyRecord) (rec : KeyRecord)
    → (left_at c before ≡ some rec) ↔ ((before ≡ some rec) × Spares rec c)
left_at_iff c before rec = elim (Bool-cases c.writes_fail) [
  | inl w ↦ (λ e. (rw (w, left_at) at e, inl w), λ p. rw (w, left_at) p.0)
  | inr w ↦ (
    λ e. (let u = (unexpired_iff c.now before rec).0 (rw (w, left_at) at e) in (u.0, inr u.1)),
    λ p.
        rw (w, left_at)
          ((unexpired_iff c.now before rec).1
            (p.0, elim p.1 [ inl t ↦ absurd (ground arith) | inr x ↦ x ])),
  )
]

left_after_iff :
    (cs : List Conditions) (before : Option KeyRecord) (rec : KeyRecord)
    → (left_after cs before ≡ some rec) ↔ ((before ≡ some rec) × All (Spares rec) cs)
left_after_iff [] before rec = (λ e. (e, tt), λ p. p.0)
left_after_iff (c ∷ cs) before rec =
    let rest = left_after_iff cs (left_at c before) rec in
    let here = left_at_iff c before rec in
    (
      λ e. (let r = rest.0 e in let h = here.0 r.0 in (h.0, (h.1, r.1))),
      λ p. rest.1 (here.1 (p.0, p.1.0), p.1.1),
    )

-- After any ticks of runKeyCleanup, on a map whose IDs are distinct, the store has a record under an ID exactly
-- if it had it before, unchanged, and every tick spared it: the store failed then, or the record did not
-- expire before the tick.
pub run_key_cleanup_iff :
    (cs : List Conditions) (s : State) (id : Text) (rec : KeyRecord)
    → Distinct s.keys
    → (get_by_id (run_key_cleanup cs s).keys id ≡ some rec)
      ↔ ((get_by_id s.keys id ≡ some rec) × All (Spares rec) cs)
run_key_cleanup_iff cs s id rec d =
    subst (λ o. (o ≡ some rec) ↔ ((get_by_id s.keys id ≡ some rec) × All (Spares rec) cs))
      (sym (get_by_id-run_key_cleanup cs s id d)) (left_after_iff cs (get_by_id s.keys id) rec)
