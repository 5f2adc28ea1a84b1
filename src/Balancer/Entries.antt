-- ===== src/Balancer/Entries.antt =====
-- A write to one backend's entry, seen through the health of all of them.
use pdag.Common.{ℕ, zero, suc, ◌≡◌, ◌≢◌, refl, ap, true, false, List, [], ◌∷◌, arith, All, filter}
use pdag.Balancer.{BackendEntry, is_healthy, update_entry}

pub is_healthy-update_ne :
    (f : BackendEntry → BackendEntry) (es : List BackendEntry) (i j : ℕ)
    → i ≢ j
    → is_healthy (update_entry f es i) j ≡ is_healthy es j
unfolding is_healthy update_entry
is_healthy-update_ne f [] i j d = refl
is_healthy-update_ne f (e ∷ es) zero zero d = absurd (d refl)
is_healthy-update_ne f (e ∷ es) zero (suc j) d = refl
is_healthy-update_ne f (e ∷ es) (suc i) zero d = refl
is_healthy-update_ne f (e ∷ es) (suc i) (suc j) d =
    is_healthy-update_ne f es i j (λ p. d (ap suc p))

pub is_healthy-update_same :
    (es : List BackendEntry) (i j : ℕ)
    → is_healthy (update_entry (λ e. e) es i) j ≡ true
    → is_healthy es j ≡ true
unfolding is_healthy update_entry
is_healthy-update_same [] i j h = h
is_healthy-update_same (e ∷ es) zero j h = h
is_healthy-update_same (e ∷ es) (suc i) zero h = h
is_healthy-update_same (e ∷ es) (suc i) (suc j) h = is_healthy-update_same es i j h

pub is_healthy-update_down :
    (es : List BackendEntry) (i j : ℕ)
    → is_healthy (update_entry (λ e. record e { healthy = false }) es i) j ≡ true
    → is_healthy es j ≡ true
unfolding is_healthy update_entry
is_healthy-update_down [] i j h = h
is_healthy-update_down (e ∷ es) zero zero h = cc
is_healthy-update_down (e ∷ es) zero (suc j) h = h
is_healthy-update_down (e ∷ es) (suc i) zero h = h
is_healthy-update_down (e ∷ es) (suc i) (suc j) h = is_healthy-update_down es i j h

pub filter-update :
    (f : BackendEntry → BackendEntry) (es : List BackendEntry) (i : ℕ) (vs : List ℕ)
    → All (λ v. i ≢ v) vs
    → filter (is_healthy (update_entry f es i)) vs ≡ filter (is_healthy es) vs
filter-update f es i [] d = refl
filter-update f es i (v ∷ vs) d =
    ground (arith, is_healthy-update_ne f es i v d.0, filter-update f es i vs d.1)
