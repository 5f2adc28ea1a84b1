-- ===== src/PgArray/RoundTrip.antt =====
-- Value and Scan against each other.
use mathlib.Core.List.{append_assoc, append-nil}
use pdag.Common.{
  ℕ, ◌≡◌, ◌≢◌, refl, sym, ap, ◌∙◌, Bool, true, false, not, ◌&&◌, Text, codes, text_eq, text_eq_iff,
  join, trim_space, List, [], ◌∷◌, ◌++◌, Option, none, some, map, all, arith, trim_space-braced,
  Bool-cases, inl, inr, if◌then◌else◌, &&-eq-true,
}
use pdag.PgArray.{
  Parser, Array, string, is_null, flush, feed, result_of, run, start, parse_array_elements,
  until_brace, between_braces, scan, needs_quotes, runes, quote_array_element, value,
}
use pdag.PgArray.Parse.{outside, written_of, run-quote, run-step}

-- An element that is valid UTF-8 if it is put in quotes, and else one that no reader takes for NULL or trims.
abbrev pub survives : Text → Bool
survives e =
    if needs_quotes e then text_eq (runes e) e else text_eq (trim_space e) e && not (is_null e)

flush-survives :
    (r : List Text) (e : Text)
    → survives e ≡ true
    → flush (outside (needs_quotes e) r (written_of e)) ≡ some (start (r ++ e ∷ []))
unfolding flush
flush-survives r e h = elim (Bool-cases (needs_quotes e)) [
  | inl q ↦
      let same : runes e ≡ e = (text_eq_iff (runes e) e).0 (rw q at h) in
      rw q (rw (same, flush) refl)
  | inr b ↦
      let parts = &&-eq-true (text_eq (trim_space e) e) (not (is_null e)) (rw b at h) in
      let same : trim_space e ≡ e = (text_eq_iff (trim_space e) e).0 parts.0 in rw b (ground arith)
]

feed-comma :
    (q : Bool) (r : List Text) (e : Text) → feed (outside q r e) b',' ≡ flush (outside q r e)
unfolding feed
feed-comma q r e = refl

run-end : (p : Parser) → run p [] ≡ result_of (flush p)
unfolding run
run-end p = refl

run-join :
    (r : List Text) (e : Text) (es : List Text)
    → all survives (e ∷ es) ≡ true
    → run (start r) (join b',' (map quote_array_element (e ∷ es))) ≡ some (r ++ e ∷ es)
unfolding join
run-join r e [] h =
    ap (run (start r)) (sym (append-nil (quote_array_element e)))
    ∙ run-quote r e []
    ∙ run-end _
    ∙ ap result_of (flush-survives r e (ground arith))
run-join r e (f ∷ es) h =
    let parts = &&-eq-true (survives e) (all survives (f ∷ es)) h in
    let t = join b',' (map quote_array_element (f ∷ es)) in
    run-quote r e (b',' ∷ t)
    ∙ run-step _ (start (r ++ e ∷ [])) b',' t
        (feed-comma (needs_quotes e) r (written_of e) ∙ flush-survives r e parts.0)
    ∙ run-join (r ++ e ∷ []) f es parts.1
    ∙ ap some (append_assoc r (e ∷ []) (f ∷ es))

until_brace-append : (s : Text) → until_brace (s ++ b'}' ∷ []) ≡ some s
unfolding until_brace
until_brace-append [] = refl
until_brace-append (c ∷ []) = refl
until_brace-append (c ∷ d ∷ s) = rw (until_brace-append (d ∷ s))

not_empty_array : (c : ℕ) (s : Text) → text_eq (b'{' ∷ c ∷ s ++ b'}' ∷ []) (codes "{}") ≡ false
unfolding text_eq
not_empty_array c [] = ground arith
not_empty_array c (d ∷ s) = ground arith

abbrev scanned : Option (List Text) → Option Array
scanned none = none
scanned (some elems) = some (some elems)

-- Scan on a literal whose inside is not empty.
scan-braced :
    (s : Text) (r : Option (List Text))
    → s ≢ []
    → run (start []) s ≡ r
    → scan (string (b'{' ∷ s ++ b'}' ∷ [])) ≡ scanned r
unfolding scan between_braces parse_array_elements
scan-braced [] r d e = absurd (d refl)
scan-braced (c ∷ s) r d e =
    rw (trim_space-braced (c ∷ s), not_empty_array c s, until_brace-append (c ∷ s), e)

branch-ne-nil : (b : Bool) (c d : ℕ) (s t : Text) → (if b then c ∷ s else d ∷ t) ≢ []
branch-ne-nil true c d s t = λ h. cc
branch-ne-nil false c d s t = λ h. cc

quote-ne-nil : (e : Text) → quote_array_element e ≢ []
unfolding quote_array_element
quote-ne-nil [] = λ h. cc
quote-ne-nil (c ∷ e) = branch-ne-nil (needs_quotes (c ∷ e)) b'"' c _ e

join-ne-nil : (e : Text) (es : List Text) → join b',' (map quote_array_element (e ∷ es)) ≢ []
unfolding join
join-ne-nil e [] = quote-ne-nil e
join-ne-nil e (f ∷ es) = append-ne-nil (quote_array_element e) _ (quote-ne-nil e)
  where
    append-ne-nil : (s t : Text) → s ≢ [] → s ++ t ≢ []
    append-ne-nil [] t d = absurd (d refl)
    append-ne-nil (c ∷ s) t d = λ h. cc

-- Scan reads from what Value writes the elements that were written, if each of them survives: one that is put
-- in quotes is valid UTF-8, and one that is not has no space at its ends, Unicode's included, and is not `null`
-- in any case of letters.
pub scan-value :
    (elems : List Text)
    → all survives elems ≡ true
    → (literal : Text) × (value (some elems) ≡ some literal)
      × (scan (string literal) ≡ some (some elems))
unfolding value join
scan-value [] h = (codes "{}", refl, empty)
  where
    empty : scan (string (codes "{}")) ≡ some (some [])
    empty = unfold scan trim_space text_eq in refl
scan-value (e ∷ es) h = (
  b'{' ∷ join b',' (map quote_array_element (e ∷ es)) ++ b'}' ∷ [],
  refl,
  scan-braced _ (some (e ∷ es)) (join-ne-nil e es) (run-join [] e es h),
)

flush-null :
    (r : List Text) (e : Text)
    → needs_quotes e ≡ false
    → is_null (trim_space e) ≡ true
    → flush (outside (needs_quotes e) r (written_of e)) ≡ none
unfolding flush
flush-null r e q n = rw q (ground arith)

-- An array of one element that needs no quotes and spells NULL, in any case of letters, is written as a
-- literal that Scan refuses.
pub null_refused :
    (e : Text)
    → needs_quotes e ≡ false
    → is_null (trim_space e) ≡ true
    → (literal : Text) × (value (some (e ∷ [])) ≡ some literal) × (scan (string literal) ≡ none)
unfolding value join
null_refused e q n = (
  b'{' ∷ quote_array_element e ++ b'}' ∷ [],
  refl,
  scan-braced (quote_array_element e) none (quote-ne-nil e) (
      ap (run (start [])) (sym (append-nil (quote_array_element e)))
      ∙ run-quote [] e []
      ∙ run-end _
      ∙ ap result_of (flush-null [] e q n)),
)
