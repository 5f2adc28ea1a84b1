-- ===== src/Common/Strings.antt =====
-- Go strings as lists of bytes, and what the program uses of the package strings: == Split Join
-- TrimPrefix HasPrefix HasSuffix TrimSpace, and ToLower on ASCII.
use Prim.Native.Nat.{ℕ, ◌+◌}
use Prim.Native.Char.{code}
use Prim.Native.String.{String}
use mathlib.Core.Path.{◌≡◌, refl, sym, ap, ◌∙◌}
use mathlib.Core.Logic.{◌↔◌, ◌≢◌, inl, inr}
use mathlib.Core.Bool.{Bool, true, false, ◌&&◌, ◌||◌}
use mathlib.Core.List.{List, [], ◌∷◌, ◌++◌, map, reverse, reverse-append, reverse-reverse}
use native.Mathlib.Omega.{arith}
use pdag.Common.Tests.{leb, ◌==◌, ==_refl, Bool-cases, if◌then◌else◌}

abbrev pub Text : Type 0
Text = List ℕ

-- A literal of ASCII text.
abbrev pub codes : String → Text
codes String.[] = []
codes (String.◌∷◌ c s) = code c ∷ codes s

unfoldable pub text_eq : Text → Text → Bool
text_eq [] [] = true
text_eq (a ∷ s) (b ∷ t) = a == b && text_eq s t
text_eq _ _ = false

pub text_eq_iff : (s t : Text) → (text_eq s t ≡ true) ↔ (s ≡ t)
unfolding text_eq
text_eq_iff [] [] = (λ _. refl, λ _. refl)
text_eq_iff [] (b ∷ t) = (λ h. cc, λ h. cc)
text_eq_iff (a ∷ s) [] = (λ h. cc, λ h. cc)
text_eq_iff (a ∷ s) (b ∷ t) =
    (λ h. ground (arith, text_eq_iff s t), λ h. ground (arith, text_eq_iff s t))

pub text_eq_refl : (s : Text) → text_eq s s ≡ true
text_eq_refl s = (text_eq_iff s s).1 refl

-- The first part of a split gets one more byte in front.
abbrev onto_first : ℕ → List Text → List Text
onto_first c [] = (c ∷ []) ∷ []
onto_first c (p ∷ ps) = (c ∷ p) ∷ ps

-- strings.Split with a separator of one byte
unfoldable pub split : ℕ → Text → List Text
split sep [] = [] ∷ []
split sep (c ∷ s) = let rest = split sep s in if c == sep then [] ∷ rest else onto_first c rest

unfoldable pub contains_byte : ℕ → Text → Bool
contains_byte c [] = false
contains_byte c (d ∷ s) = d == c || contains_byte c s

-- A text without the separator is its only part.
pub split-no_separator : (sep : ℕ) (s : Text) → contains_byte sep s ≡ false → split sep s ≡ s ∷ []
unfolding split contains_byte
split-no_separator sep [] h = refl
split-no_separator sep (c ∷ s) h = ground (arith, split-no_separator sep s)

split-ne-nil : (sep : ℕ) (s : Text) → split sep s ≢ []
unfolding split
split-ne-nil sep [] = λ e. cc
split-ne-nil sep (c ∷ s) = λ e. ground (arith, split-ne-nil sep s)

onto_first-append :
    (c : ℕ) (ps qs : List Text) → ps ≢ [] → onto_first c (ps ++ qs) ≡ onto_first c ps ++ qs
onto_first-append c [] qs d = absurd (d refl)
onto_first-append c (p ∷ ps) qs d = refl

-- Splitting goes through a separator.
pub split-append : (sep : ℕ) (s t : Text) → split sep (s ++ sep ∷ t) ≡ split sep s ++ split sep t
unfolding split
split-append sep [] t = rw (==_refl sep)
split-append sep (c ∷ s) t = rw (split-append sep s t) (elim (Bool-cases (c == sep)) [
  | inl cut ↦ rw cut
  | inr more ↦ rw more (onto_first-append c (split sep s) (split sep t) (split-ne-nil sep s))
])

-- strings.Join with a separator of one byte
unfoldable pub join : ℕ → List Text → Text
join sep [] = []
join sep (p ∷ []) = p
join sep (p ∷ q ∷ ps) = p ++ sep ∷ join sep (q ∷ ps)

unfoldable pub has_prefix : Text → Text → Bool
has_prefix [] s = true
has_prefix (p ∷ ps) [] = false
has_prefix (p ∷ ps) (c ∷ s) = p == c && has_prefix ps s

abbrev strip : Text → Text → Text
strip [] s = s
strip (p ∷ ps) [] = []
strip (p ∷ ps) (c ∷ s) = strip ps s

unfoldable pub trim_prefix : Text → Text → Text
unfolding has_prefix
trim_prefix p s = if has_prefix p s then strip p s else s

strip-has_prefix : (p s : Text) → has_prefix p s ≡ true → p ++ strip p s ≡ s
unfolding has_prefix
strip-has_prefix [] s h = refl
strip-has_prefix (p ∷ ps) [] h = cc
strip-has_prefix (p ∷ ps) (c ∷ s) h = ground (arith, strip-has_prefix ps s)

pub append-trim_prefix : (p s : Text) → has_prefix p s ≡ true → p ++ trim_prefix p s ≡ s
unfolding trim_prefix
append-trim_prefix p s h = rw (h, trim_prefix) (strip-has_prefix p s h)

pub has_prefix-append : (p s : Text) → has_prefix p (p ++ s) ≡ true
unfolding has_prefix
has_prefix-append [] s = refl
has_prefix-append (p ∷ ps) s = ground (arith, has_prefix-append ps s)

strip-append : (p s : Text) → strip p (p ++ s) ≡ s
strip-append [] s = refl
strip-append (p ∷ ps) s = strip-append ps s

pub trim_prefix-append : (p s : Text) → trim_prefix p (p ++ s) ≡ s
unfolding trim_prefix
trim_prefix-append p s = rw (has_prefix-append p s, trim_prefix) (strip-append p s)

unfoldable pub has_suffix : Text → Text → Bool
unfolding has_prefix
has_suffix p s = has_prefix (reverse p) (reverse s)

pub has_suffix-append : (p s : Text) → has_suffix p (s ++ p) ≡ true
unfolding has_suffix
has_suffix-append p s = rw (reverse-append s p) (has_prefix-append (reverse p) (reverse s))

-- unicode.IsSpace on the code points of one byte of UTF-8, and on those of two and of three: U+0085 and
-- U+00A0; U+1680, U+2000 to U+200A, U+2028, U+2029, U+202F, U+205F and U+3000.
unfoldable pub is_space : ℕ → Bool
is_space c = c == 32 || (leb 9 c && leb c 13)

unfoldable pub is_space_2 : ℕ → ℕ → Bool
is_space_2 c d = c == 194 && (d == 133 || d == 160)

unfoldable pub is_space_3 : ℕ → ℕ → ℕ → Bool
is_space_3 c d e =
    (c == 225 && (d == 154 && e == 128))
    || (c == 226
        && ((d == 128 && ((leb 128 e && leb e 138) || (e == 168 || (e == 169 || e == 175))))
            || (d == 129 && e == 159)))
    || (c == 227 && (d == 128 && e == 128))

-- The text from its first rune on that is no space; the tests are given the bytes in the text's order.
unfoldable pub trim_runes : (ℕ → ℕ → Bool) → (ℕ → ℕ → ℕ → Bool) → Text → Text
unfolding is_space
trim_runes two three [] = []
trim_runes two three (c ∷ []) = if is_space c then [] else c ∷ []
trim_runes two three (c ∷ d ∷ []) =
    let rest = trim_runes two three (d ∷ []) in
    if is_space c then rest else if two c d then [] else c ∷ d ∷ []
trim_runes two three (c ∷ d ∷ e ∷ s) =
    let after_one = trim_runes two three (d ∷ e ∷ s) in
    let after_two = trim_runes two three (e ∷ s) in
    let after_three = trim_runes two three s in
    if is_space c
    then after_one
    else if two c d
    then after_two
    else if three c d e
    then after_three
    else c ∷ d ∷ e ∷ s

unfoldable pub trim_left : Text → Text
unfolding trim_runes is_space_2 is_space_3
trim_left s = trim_runes is_space_2 is_space_3 s

-- The spaces at the end, the text reversed.
unfoldable pub trim_end : Text → Text
unfolding trim_runes is_space_2 is_space_3
trim_end s = trim_runes (λ d c. is_space_2 c d) (λ e d c. is_space_3 c d e) s

-- strings.TrimSpace
unfoldable pub trim_space : Text → Text
unfolding trim_left trim_end
trim_space s = reverse (trim_end (reverse (trim_left s)))

-- A text that starts with a byte that no test takes for the start of a space stays.
trim_runes-keeps :
    (two : ℕ → ℕ → Bool) (three : ℕ → ℕ → ℕ → Bool) (c : ℕ) (s : Text)
    → is_space c ≡ false
    → ((d : ℕ) → two c d ≡ false)
    → ((d e : ℕ) → three c d e ≡ false)
    → trim_runes two three (c ∷ s) ≡ c ∷ s
unfolding trim_runes
trim_runes-keeps two three c [] h f g = rw (h, trim_runes) refl
trim_runes-keeps two three c (d ∷ []) h f g = rw (h, f d, trim_runes) refl
trim_runes-keeps two three c (d ∷ e ∷ s) h f g = rw (h, f d, g d e, trim_runes) refl

pub trim_space-braced : (s : Text) → trim_space (b'{' ∷ s ++ b'}' ∷ []) ≡ b'{' ∷ s ++ b'}' ∷ []
unfolding trim_space trim_left trim_end is_space_2 is_space_3
trim_space-braced s =
    let turned : reverse ((b'{' ∷ s) ++ b'}' ∷ []) ≡ b'}' ∷ reverse (b'{' ∷ s) =
      reverse-append (b'{' ∷ s) (b'}' ∷ []) in
    ap (λ t. reverse (trim_end (reverse t)))
      (trim_runes-keeps is_space_2 is_space_3 b'{' (s ++ b'}' ∷ []) refl (λ d. refl)
        (λ d e. ground arith))
    ∙ ap (λ t. reverse (trim_end t)) turned
    ∙ ap reverse (
        trim_runes-keeps (λ d c. is_space_2 c d) (λ e d c. is_space_3 c d e) b'}'
          (reverse (b'{' ∷ s)) refl (λ d. ground arith) (λ d e. ground arith))
    ∙ ap reverse (sym turned)
    ∙ reverse-reverse ((b'{' ∷ s) ++ b'}' ∷ [])

unfoldable pub lower_byte : ℕ → ℕ
lower_byte c = if leb b'A' c && leb c b'Z' then c + 32 else c

unfoldable pub to_lower : Text → Text
unfolding lower_byte
to_lower = map lower_byte
