-- ===== src/PgArray.antt =====
-- internal/store/postgres/pgarray.go: text[] columns as PostgreSQL array literals. A string is a list
-- of bytes. The loop of quoteArrayElement goes by runes, as Go decodes them: `runes` is what is written of
-- them, with U+FFFD for each byte that is no UTF-8.
pub mod Parse
pub mod RoundTrip
mod Tests
use pdag.Common.{
  ℕ, ◌==◌, leb, Bool, true, false, not, ◌&&◌, ◌||◌, Text, codes, text_eq, join, trim_space,
  to_lower, contains_byte, List, [], ◌∷◌, ◌++◌, Option, none, some, map, any, is_empty,
  if◌then◌else◌,
}

-- The values that a driver hands to Scan; `other` is any type but string and []byte.
pub data Source : Type 0 where
  nil other : Source
  string bytes : Text → Source

-- Where a byte of the literal finds the parser.
pub record Parser : Type 0 where
  pub result : List Text
  pub current : Text
  pub in_quote : Bool
  pub escaped : Bool
  pub quoted : Bool

unfoldable pub is_null : Text → Bool
is_null val = text_eq (to_lower val) (codes "null")

-- The end of an element; `none` is the error of a NULL element.
unfoldable pub flush : Parser → Option Parser
flush p =
    let val = if p.quoted then p.current else trim_space p.current in
    if not p.quoted && is_null val
    then none
    else some (record p { result = p.result ++ val ∷ []; current = []; quoted = false })

unfoldable pub write_byte : Parser → ℕ → Parser
write_byte p c = record p { current = p.current ++ c ∷ [] }

-- The body of the loop over the bytes.
unfoldable pub feed : Parser → ℕ → Option Parser
unfolding write_byte
feed p c =
    if p.escaped
    then some (record (write_byte p c) { escaped = false })
    else if c == b'\\'
    then some (record p { escaped = true })
    else if c == b'"'
    then some (record p { in_quote = not p.in_quote; quoted = true })
    else if c == b',' && not p.in_quote
    then flush p
    else some (write_byte p c)

abbrev pub result_of : Option Parser → Option (List Text)
result_of none = none
result_of (some p) = some p.result

unfoldable pub run : Parser → Text → Option (List Text)
run p [] = result_of (flush p)
run p (c ∷ s) = elim (feed p c) [ none ↦ none | some q ↦ run q s ]

abbrev pub start : List Text → Parser
start result = record {
  result = result;
  current = [];
  in_quote = false;
  escaped = false;
  quoted = false;
}

unfoldable pub parse_array_elements : Text → Option (List Text)
parse_array_elements s = run (start []) s

abbrev prepend : ℕ → Option Text → Option Text
prepend c none = none
prepend c (some s) = some (c ∷ s)

unfoldable pub until_brace : Text → Option Text
until_brace [] = none
until_brace (c ∷ []) = if c == b'}' then some [] else none
until_brace (c ∷ d ∷ s) = prepend c (until_brace (d ∷ s))

-- `s[1 : len(s)-1]`, or `none` unless the text has its two braces.
unfoldable pub between_braces : Text → Option Text
unfolding until_brace
between_braces [] = none
between_braces (c ∷ s) = if c == b'{' then until_brace s else none

-- What Scan makes of the array: nil, or its elements; `none` is an error.
abbrev pub Array : Type 0
Array = Option (List Text)

scan_text : Text → Option Array
scan_text text =
    let s = trim_space text in
    if text_eq s (codes "{}") then some (some []) else elim (between_braces s) [
      | none ↦ none
      | some inner ↦ elim (parse_array_elements inner) [
        | none ↦ none
        | some elems ↦ some (some elems)
      ]
    ]

unfoldable pub scan : Source → Option Array
unfolding scan_text
scan nil = some none
scan other = none
scan (string s) = scan_text s
scan (bytes s) = scan_text s

escape : Text → Text
escape [] = []
escape (c ∷ s) =
    let rest = escape s in if c == b'"' || c == b'\\' then b'\\' ∷ c ∷ rest else c ∷ rest

abbrev is_cont : ℕ → Bool
is_cont c = leb 128 c && leb c 191

-- The starts of a rune of two, three and four bytes in UTF-8.
abbrev starts_two : ℕ → ℕ → Bool
starts_two c d = (leb 194 c && leb c 223) && is_cont d

abbrev starts_three : ℕ → ℕ → ℕ → Bool
starts_three c d e =
    ((c == 224 && (leb 160 d && leb d 191))
      || (c == 237 && (leb 128 d && leb d 159))
      || ((leb 225 c && leb c 236 || (c == 238 || c == 239)) && is_cont d))
    && is_cont e

abbrev starts_four : ℕ → ℕ → ℕ → ℕ → Bool
starts_four c d e f =
    ((c == 240 && (leb 144 d && leb d 191))
      || (c == 244 && (leb 128 d && leb d 143))
      || ((leb 241 c && leb c 243) && is_cont d))
    && (is_cont e && is_cont f)

-- One byte, as a rune.
abbrev one_byte : ℕ → Text → Text
one_byte c rest = if leb c 127 then c ∷ rest else 239 ∷ 191 ∷ 189 ∷ rest

-- The loop over the runes with WriteRune.
unfoldable pub runes : Text → Text
runes [] = []
runes (c ∷ []) = one_byte c []
runes (c ∷ d ∷ []) =
    let rest = runes (d ∷ []) in if starts_two c d then c ∷ d ∷ [] else one_byte c rest
runes (c ∷ d ∷ e ∷ []) =
    let after_one = runes (d ∷ e ∷ []) in
    let after_two = runes (e ∷ []) in
    if starts_two c d
    then c ∷ d ∷ after_two
    else if starts_three c d e
    then c ∷ d ∷ e ∷ []
    else one_byte c after_one
runes (c ∷ d ∷ e ∷ f ∷ s) =
    let after_one = runes (d ∷ e ∷ f ∷ s) in
    let after_two = runes (e ∷ f ∷ s) in
    let after_three = runes (f ∷ s) in
    let after_four = runes s in
    if starts_two c d
    then c ∷ d ∷ after_two
    else if starts_three c d e
    then c ∷ d ∷ e ∷ after_three
    else if starts_four c d e f
    then c ∷ d ∷ e ∷ f ∷ after_four
    else one_byte c after_one

-- A byte for which an element is put in quotes.
unfoldable pub is_special : ℕ → Bool
unfolding contains_byte
is_special c = contains_byte c (codes "{},\"\\") || contains_byte c (32 ∷ 9 ∷ 10 ∷ [])

unfoldable pub needs_quotes : Text → Bool
unfolding is_special
needs_quotes s = is_empty s || any is_special s

unfoldable pub quote_array_element : Text → Text
unfolding needs_quotes escape runes
quote_array_element s = if needs_quotes s then b'"' ∷ escape (runes s) ++ b'"' ∷ [] else s

-- Value: `none` is a SQL NULL.
unfoldable pub value : Array → Option Text
value none = none
value (some elems) = some (b'{' ∷ join b',' (map quote_array_element elems) ++ b'}' ∷ [])
