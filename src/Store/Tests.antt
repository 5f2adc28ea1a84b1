-- ===== src/Store/Tests.antt =====
-- The store at concrete records.
use pdag.Common.{
  ◌↔◌, ◌≡◌, true, false, codes, Text, List, [], ◌∷◌, ℕ, Option, none, some, negsuc, pos, take, drop,
  ◌&&◌, Bool,
}
use pdag.Store.{KeyRecord, Keys, new_store, get_by_id, list_filtered, records}
use pdag.Store.Invariant.{Call, run, creates, deletes, enables}
use pdag.Store.Refinement.{effects, expected, error_of, store-refines}
use pdag.Store.Listing.{Sorted, Wanted, count, list_filtered_lem}

abbrev key : Text → ℕ → Option ℕ → KeyRecord
key id at expiry = record {
  id = id;
  key_hash = codes "00";
  hmac_key_id = codes "k";
  principal = codes "alice";
  roles = codes "admin" ∷ [];
  allowed_cidrs = [];
  enabled = true;
  expires_at = expiry;
  created_at = at;
  updated_at = at;
}

abbrev two_keys : Keys
two_keys = (codes "b", key (codes "b") 9 none) ∷ (codes "a", key (codes "a") 4 (some 7)) ∷ []

abbrev calls : List Call
calls =
    creates (key (codes "a") 0 none) 1
    ∷ enables (codes "a") false 2
    ∷ creates (key (codes "a") 0 (some 9)) 3
    ∷ []

store-refines_example :
    (get_by_id (run new_store calls) (codes "a") ≡ effects calls (λ id. none) (codes "a"))
    × (error_of (run new_store calls) (deletes (codes "b"))
        ≡ expected (deletes (codes "b")) (effects calls (λ id. none)))
store-refines_example = store-refines calls (deletes (codes "b")) (codes "a")

list_filtered_lem_example :
    (all : List KeyRecord) × (wanted : KeyRecord → Bool) × (Sorted all
      × ((rec : KeyRecord) → (wanted rec ≡ true) ↔ Wanted (codes "alice") (codes "admin") rec)
      × ((test : KeyRecord → Bool)
          → count test all ≡ count (λ r. test r && wanted r) (records two_keys))
      × (list_filtered two_keys (pos 1) (negsuc 0) (codes "alice") (codes "admin")
          ≡ take 1 (drop 0 all)))
list_filtered_lem_example =
    list_filtered_lem two_keys (pos 1) (negsuc 0) (codes "alice") (codes "admin")
