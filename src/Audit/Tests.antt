-- ===== src/Audit/Tests.antt =====
-- Two bodies that differ in a secret.
use pdag.Common.{
  ◌≡◌, inl, refl, true, Text, codes, text_eq, List, [], ◌∷◌, some, to_lower, lower_byte,
}
use pdag.Audit.{Json, object, scalar, string, no_member, member, redact_value, Encoding}
use pdag.Audit.Redaction.{Alike, redact_value_iff}

abbrev fields : List Text
fields = codes "secret" ∷ []

abbrev with_secret : Text → Json
with_secret s = object (member (codes "Secret") (scalar (string s)) no_member)

-- A body of one byte is such an object.
abbrev encoding : Encoding
encoding = record {
  is_valid = λ s. true;
  unmarshal = λ s. some (with_secret s);
  marshal = λ v. some (codes "{}");
  quote = λ s. s;
  to_lower = to_lower;
}

abbrev one : Json
one = with_secret (codes "1")

abbrev two : Json
two = with_secret (codes "2")

same_but_secret : Alike to_lower fields one two
unfolding Alike text_eq to_lower lower_byte
same_but_secret = (refl, inl refl, tt)

redact_value_iff_example : redact_value to_lower fields one ≡ redact_value to_lower fields two
redact_value_iff_example = (redact_value_iff to_lower fields one two).1 same_but_secret
