-- ===== src/Balancer/Rotation.antt =====
-- The order in which a request visits the backends: from its start on, once round.
use native.Mathlib.Nat.{mod-lt, mod-eq_of_lt, mod-add-mod, mod-eq-sub-mod}
use pdag.Common.{
  ℕ, ◌+◌, ◌-◌, ◌%◌, ◌≤◌, ◌<◌, ◌≡◌, ◌≢◌, ap, inl, inr, arith, ltb, sym, ◌∙◌, Bool-cases,
  if◌then◌else◌,
}
use pdag.Balancer.{u64}

-- One step of the rotation, without the remainder.
turn : ℕ → ℕ → ℕ → ℕ
turn n r i = if ltb (r + i) n then r + i else r + i - n

turn_lem : (n r i : ℕ) → r < n → i < n → (r + i) % n ≡ turn n r i
unfolding turn
turn_lem n r i h k = elim (Bool-cases (ltb (r + i) n)) [
  | inl below ↦ rw below (mod-eq_of_lt (ground arith))
  | inr above ↦
      rw above (mod-eq-sub-mod {n = r + i} {m = n} (ground arith) ∙ mod-eq_of_lt (ground arith))
]

mod_turn : (n s i : ℕ) → i < n → (s + i) % n ≡ turn n (s % n) i
mod_turn n s i h = sym (mod-add-mod s n i) ∙ turn_lem n (s % n) i (mod-lt s (omega arith)) h

turn_inj : (n r i j : ℕ) → r < n → i < n → j < n → i ≢ j → turn n r i ≢ turn n r j
unfolding turn
turn_inj n r i j hr hi hj d e = ground arith

-- Two visits of one round are to different backends, if the count does not wrap on the way.
pub visit_inj :
    (n start i j : ℕ)
    → start + n ≤ u64
    → i < n
    → j < n
    → i ≢ j
    → (start + i) % u64 % n ≢ (start + j) % u64 % n
visit_inj n start i j w hi hj d e =
    turn_inj n (start % n) i j (mod-lt start (omega arith)) hi hj d (
      sym (mod_turn n start i hi)
      ∙ ap (λ (k : ℕ). k % n) (sym (mod-eq_of_lt (omega arith)))
      ∙ e
      ∙ ap (λ (k : ℕ). k % n) (mod-eq_of_lt (omega arith))
      ∙ mod_turn n start j hj)

-- Every backend is visited in one round.
unturn : ℕ → ℕ → ℕ → ℕ
unturn n r k = if ltb k r then k + n - r else k - r

turn-unturn : (n r k : ℕ) → r < n → k < n → (unturn n r k < n) × (turn n r (unturn n r k) ≡ k)
unfolding turn unturn
turn-unturn n r k hr hk = ground arith

pub visit_onto :
    (n start k : ℕ) → start + n ≤ u64 → k < n → (i : ℕ) × (i < n) × ((start + i) % u64 % n ≡ k)
visit_onto n start k w h =
    let r = start % n in
    let t = turn-unturn n r k (mod-lt start (omega arith)) h in
    (
      unturn n r k,
      t.0,
      ap (λ (j : ℕ). j % n) (mod-eq_of_lt (omega arith)) ∙ mod_turn n start _ t.0 ∙ t.1,
    )
