-- ===== src/Balancer/Health.antt =====
-- internal/proxy/balancer/health.go: the active health checks. What a check's request brings back is
-- a parameter: it is given the address and the API key.
use pdag.Common.{
  ℕ, zero, suc, ◌≡◌, refl, Bool, true, false, not, ◌&&◌, Text, ◌++◌, List, [], ◌∷◌, Option, none,
  some, arith, map, get_elem?, leb, ltb,
}
use pdag.Balancer.{BackendEntry, Balancer, is_healthy}

-- `not_created` where the request cannot be made; else whether `err` is set, and the status of the
-- response if there is one.
pub data Probe : Type 0 where
  not_created : Probe
  done : Bool → Option ℕ → Probe

abbrev pub is_success : Option ℕ → Bool
is_success none = false
is_success (some status) = leb 200 status && ltb status 300

unfoldable pub check_one : (Text → Text → Probe) → Text → BackendEntry → BackendEntry
check_one probe path entry = elim (probe (entry.url ++ path) entry.api_key) [
  | not_created ↦ entry
  | done is_err resp ↦ record entry { healthy = not is_err && is_success resp }
]

-- Each goroutine of checkAll works on an entry of its own.
unfoldable pub check_all : (Text → Text → Probe) → Text → Balancer → Balancer
check_all probe path lb = record lb { backends = map (check_one probe path) lb.backends }

module _ (probe : Text → Text → Probe) (path : Text) where
  -- What a round of checks makes of a backend's health.
  abbrev pub verdict : BackendEntry → Probe → Bool
  verdict e not_created = e.healthy
  verdict e (done true resp) = false
  verdict e (done false resp) = is_success resp

  pub is_healthy-check :
      (es : List BackendEntry) (i : ℕ) (e : BackendEntry)
      → get_elem? es i ≡ some e
      → is_healthy (map (check_one probe path) es) i ≡ verdict e (probe (e.url ++ path) e.api_key)
  unfolding is_healthy check_one
  is_healthy-check [] i e h = cc
  is_healthy-check (x ∷ es) zero e h = ground arith
  is_healthy-check (x ∷ es) (suc i) e h = is_healthy-check es i e h

  -- After a round of checks a backend is healthy exactly if its own check came back without error and
  -- with a status of 200 to 299, whatever it was before; a check whose request cannot be made leaves
  -- it as it was. The counter is left alone.
  pub check_all_lem :
      (lb : Balancer) (i : ℕ) (e : BackendEntry)
      → get_elem? lb.backends i ≡ some e
      → (is_healthy (check_all probe path lb).backends i
          ≡ verdict e (probe (e.url ++ path) e.api_key))
        × ((check_all probe path lb).counter ≡ lb.counter)
  unfolding check_all
  check_all_lem lb i e h = (is_healthy-check lb.backends i e h, refl)
