-- ===== src/PgArray/Tests.antt =====
-- Array literals at concrete elements.
use pdag.Common.{
  ◌≡◌, refl, Text, codes, List, [], ◌∷◌, none, some, text_eq, trim_space, trim_left, trim_end,
  trim_runes, to_lower, join,
}
use pdag.PgArray.{runes, string, scan, value, needs_quotes, is_null, quote_array_element}
use pdag.PgArray.RoundTrip.{scan-value, null_refused}

abbrev roles : List Text
roles = codes "read_zones" ∷ codes "a \"b\"" ∷ [] ∷ []

written : value (some roles) ≡ some (codes "{read_zones,\"a \\\"b\\\"\",\"\"}")
unfolding value quote_array_element runes join
written = refl

scan-value_example :
    (literal : Text) × (value (some roles) ≡ some literal)
    × (scan (string literal) ≡ some (some roles))
unfolding needs_quotes runes text_eq trim_space trim_left trim_end trim_runes is_null to_lower
scan-value_example = scan-value roles refl

null_refused_example :
    (literal : Text) × (value (some (codes "Null" ∷ [])) ≡ some literal)
    × (scan (string literal) ≡ none)
unfolding needs_quotes runes text_eq trim_space trim_left trim_end trim_runes is_null to_lower
null_refused_example = null_refused (codes "Null") refl refl
