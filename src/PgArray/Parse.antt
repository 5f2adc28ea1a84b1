-- ===== src/PgArray/Parse.antt =====
-- The parser on what quoteArrayElement writes.
use mathlib.Core.List.{append_assoc, append-nil}
use pdag.Common.{
  ℕ, ◌==◌, ◌≡◌, refl, Bool, true, false, ◌||◌, Text, List, [], ◌∷◌, ◌++◌, some, any, arith, ap, ◌∙◌,
  Bool-cases, inl, inr, if◌then◌else◌,
}
use pdag.PgArray.{
  Parser, feed, run, start, escape, runes, is_special, needs_quotes, quote_array_element,
}

-- In the quotes of an element, with this much of it read.
abbrev inside : List Text → Text → Parser
inside r cur = record { result = r; current = cur; in_quote = true; escaped = false; quoted = true }

-- Outside quotes, with this much of an element read.
abbrev pub outside : Bool → List Text → Text → Parser
outside quoted r cur = record {
  result = r;
  current = cur;
  in_quote = false;
  escaped = false;
  quoted = quoted;
}

feed-inside :
    (r : List Text) (cur : Text) (c : ℕ)
    → (c == b'"' || c == b'\\') ≡ false
    → feed (inside r cur) c ≡ some (inside r (cur ++ c ∷ []))
unfolding feed
feed-inside r cur c h = ground arith

pub run-step : (p q : Parser) (c : ℕ) (s : Text) → feed p c ≡ some q → run p (c ∷ s) ≡ run q s
unfolding run
run-step p q c s e = rw (e, run)

run-escaped :
    (r : List Text) (cur : Text) (c : ℕ) (s : Text)
    → run (inside r cur) (b'\\' ∷ c ∷ s) ≡ run (inside r (cur ++ c ∷ [])) s
unfolding run feed
run-escaped r cur c s = refl

run-open : (r : List Text) (s : Text) → run (start r) (b'"' ∷ s) ≡ run (inside r []) s
unfolding run feed
run-open r s = refl

run-close :
    (r : List Text) (cur s : Text) → run (inside r cur) (b'"' ∷ s) ≡ run (outside true r cur) s
unfolding run feed
run-close r cur s = refl

-- Inside quotes an escaped text is read as the text.
run-escape :
    (r : List Text) (cur s rest : Text)
    → run (inside r cur) (escape s ++ rest) ≡ run (inside r (cur ++ s)) rest
unfolding escape
run-escape r cur [] rest = rw (append-nil cur)
run-escape r cur (c ∷ s) rest =
    let ih =
      run-escape r (cur ++ c ∷ []) s rest
      ∙ ap (λ (t : Text). run (inside r t) rest) (append_assoc cur (c ∷ []) s) in
    elim (Bool-cases (c == b'"' || c == b'\\')) [
      | inl special ↦ rw special (run-escaped r cur c (escape s ++ rest) ∙ ih)
      | inr plain ↦
          rw plain (run-step (inside r cur) _ c (escape s ++ rest) (feed-inside r cur c plain) ∙ ih)
    ]

feed-outside :
    (r : List Text) (cur : Text) (c : ℕ)
    → is_special c ≡ false
    → feed (outside false r cur) c ≡ some (outside false r (cur ++ c ∷ []))
unfolding feed is_special
feed-outside r cur c h = ground arith

-- Outside quotes a text without special bytes is read as it is.
run-plain :
    (r : List Text) (cur s rest : Text)
    → any is_special s ≡ false
    → run (outside false r cur) (s ++ rest) ≡ run (outside false r (cur ++ s)) rest
run-plain r cur [] rest h = rw (append-nil cur)
run-plain r cur (c ∷ s) rest h =
    run-step (outside false r cur) _ c (s ++ rest) (feed-outside r cur c (ground arith))
    ∙ (run-plain r (cur ++ c ∷ []) s rest (ground arith)
        ∙ ap (λ (t : Text). run (outside false r t) rest) (append_assoc cur (c ∷ []) s))

-- What is written of an element is read as the element, and if it is quoted, as its runes.
abbrev pub written_of : Text → Text
written_of s = if needs_quotes s then runes s else s

pub run-quote :
    (r : List Text) (s rest : Text)
    → run (start r) (quote_array_element s ++ rest)
      ≡ run (outside (needs_quotes s) r (written_of s)) rest
unfolding quote_array_element
run-quote r s rest = elim (Bool-cases (needs_quotes s)) [
  | inl quotes ↦ rw quotes (
      rw (append_assoc (escape (runes s)) (b'"' ∷ []) rest) (
        run-open r (escape (runes s) ++ b'"' ∷ rest)
        ∙ run-escape r [] (runes s) (b'"' ∷ rest)
        ∙ run-close r (runes s) rest))
  | inr bare ↦ rw bare (run-plain r [] s rest (ground arith))
]
