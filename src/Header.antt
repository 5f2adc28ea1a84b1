-- ===== src/Header.antt =====
-- http.Header of net/http, as far as the program uses it: a map from canonical names to values.
use pdag.Common.{
  ℕ, ◌-◌, ◌≡◌, Bool, true, ◌&&◌, ◌||◌, Text, codes, text_eq, text_eq_refl, List, [], ◌∷◌, Option,
  none, some, all, leb, ◌==◌, if◌then◌else◌, contains_byte, lower_byte, lookup, erase, put,
  lookup-erase, lookup-put,
}

abbrev pub Header : Type 0
Header = List (Text × List Text)

-- A byte that may stand in a header's name: a letter, a digit, or one of !#$%&'*+-.^_`|~
is_token : ℕ → Bool
is_token c =
    (leb b'a' c && leb c b'z')
    || (leb b'A' c && leb c b'Z')
    || (leb b'0' c && leb c b'9')
    || contains_byte c (codes "!#$%&'*+-.^_`|~")

upper_byte : ℕ → ℕ
upper_byte c = if leb b'a' c && leb c b'z' then c - 32 else c

-- The first letter, and each behind a dash, is upper case, the others are lower case.
canonical_case : Bool → Text → Text
canonical_case start [] = []
canonical_case start (c ∷ s) =
    (if start then upper_byte c else lower_byte c) ∷ canonical_case (c == b'-') s

-- http.CanonicalHeaderKey
unfoldable pub canonical_header_key : Text → Text
unfolding is_token canonical_case upper_byte lower_byte contains_byte
canonical_header_key key = if all is_token key then canonical_case true key else key

abbrev first_value : Option (List Text) → Text
first_value none = []
first_value (some []) = []
first_value (some (v ∷ vs)) = v

-- Header.Get
unfoldable pub get : Header → Text → Text
get h key = first_value (lookup (canonical_header_key key) h)

-- Header.Set
unfoldable pub set : Header → Text → Text → Header
set h key value = put (canonical_header_key key) (value ∷ []) h

-- Header.Del
unfoldable pub del : Header → Text → Header
del h key = erase (canonical_header_key key) h

pub lookup-set :
    (h : Header) (key value k : Text)
    → lookup k (set h key value)
      ≡ (if text_eq (canonical_header_key key) k then some (value ∷ []) else lookup k h)
unfolding set
lookup-set h key value k = lookup-put (canonical_header_key key) k (value ∷ []) h

pub lookup-del :
    (h : Header) (key k : Text)
    → lookup k (del h key) ≡ (if text_eq (canonical_header_key key) k then none else lookup k h)
unfolding del
lookup-del h key k = lookup-erase (canonical_header_key key) k h

pub get-set : (h : Header) (key value : Text) → get (set h key value) key ≡ value
unfolding get
get-set h key value = rw (lookup-set, text_eq_refl)
