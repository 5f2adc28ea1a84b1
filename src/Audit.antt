-- ===== src/Audit.antt =====
-- internal/audit/body.go: the body of a request as it comes into the audit log. JSON, as encoding/json reads
-- and writes it, strconv.Quote, and strings.ToLower with Unicode's tables are parameters. The cap is not negative, as the configuration wants it.
pub mod Redaction
mod Tests
use pdag.Common.{
  ℕ, Bool, true, false, not, ◌&&◌, Text, codes, text_eq, ◌++◌, List, [], ◌∷◌, Option, none, some,
  any, is_empty, length, take, ltb, if◌then◌else◌,
}

pub data Scalar : Type 0 where
  null : Scalar
  boolean : Bool → Scalar
  number string : Text → Scalar

-- A decoded value: map[string]any, []any, or anything else.
mutual
  pub data Json : Type 0 where
    object : Members → Json
    array : Items → Json
    scalar : Scalar → Json

  pub data Members : Type 0 where
    no_member : Members
    member : Text → Json → Members → Members

  pub data Items : Type 0 where
    no_item : Items
    item : Json → Items → Items

abbrev pub marker : Json
marker = scalar (string (codes "[REDACTED]"))

module _ (to_lower : Text → Text) where
  -- redact[strings.ToLower(k)]
  abbrev pub is_redacted : List Text → Text → Bool
  is_redacted fields k = any (λ f. text_eq f (to_lower k)) fields

  unfoldable mutual
    pub redact_value : List Text → Json → Json
    redact_value fields (object ms) = object (redact_members fields ms)
    redact_value fields (array xs) = array (redact_items fields xs)
    redact_value fields (scalar s) = scalar s

    pub redact_members : List Text → Members → Members
    redact_members fields no_member = no_member
    redact_members fields (member k v ms) =
        let val = redact_value fields v in
        member k (if is_redacted fields k then marker else val) (redact_members fields ms)

    pub redact_items : List Text → Items → Items
    redact_items fields no_item = no_item
    redact_items fields (item v xs) = item (redact_value fields v) (redact_items fields xs)

-- What is used of encoding/json, strconv and strings.
pub record Encoding : Type 0 where
  pub is_valid : Text → Bool
  pub unmarshal : Text → Option Json
  pub marshal : Json → Option Text
  pub quote : Text → Text
  pub to_lower : Text → Text

module _ (encoding : Encoding) where
  open encoding use {is_valid, unmarshal, marshal, quote, to_lower}

  abbrev or_raw : Text → Option Text → Text
  or_raw raw none = raw
  or_raw raw (some out) = out

  -- The body with its fields redacted, if it is JSON.
  unfoldable pub redacted_body : Text → List Text → Text
  unfolding redact_value
  redacted_body raw fields =
      if is_valid raw && not (is_empty fields)
      then elim (unmarshal raw) [
        | none ↦ raw
        | some v ↦ or_raw raw (marshal (redact_value to_lower fields v))
      ]
      else raw

  abbrev pub truncated : Text
  truncated = codes "...(truncated)"

  unfoldable pub sanitize_body : Text → ℕ → List Text → Option Text
  unfolding redacted_body
  sanitize_body raw max_bytes fields =
      let out = redacted_body raw fields in
      if is_empty raw
      then none
      else if ltb 0 max_bytes && ltb max_bytes (length out)
      then some (quote (take max_bytes out ++ truncated))
      else if is_valid raw
      then some out
      else some (quote out)
