-- ===== src/Audit/Redaction.antt =====
-- What the audit log gives away of a JSON body.
use pdag.Common.{
  ℕ, ◌≡◌, ◌⊎◌, ◌↔◌, inl, inr, refl, sym, ap, ◌∙◌, true, false, Text, List, some, is_empty,
  if◌then◌else◌, Bool-cases, if-true, if-false,
}
use pdag.Audit.{
  Json, object, array, scalar, Members, no_member, member, Items, no_item, item, Scalar, marker,
  is_redacted, redact_value, redact_members, redact_items, Encoding, redacted_body, sanitize_body,
}

module _ (to_lower : Text → Text) (fields : List Text) where
  -- Two values that differ at most in the values of redacted members.
  unfoldable mutual
    pub Alike : Json → Json → Type 0
    Alike (object ms) (object ns) = AlikeMembers ms ns
    Alike (array xs) (array ys) = AlikeItems xs ys
    Alike (scalar s) (scalar t) = s ≡ t
    Alike _ _ = ⊥

    pub AlikeMembers : Members → Members → Type 0
    AlikeMembers no_member no_member = Unit
    AlikeMembers (member k v ms) (member j w ns) =
        (k ≡ j) × ((is_redacted to_lower fields k ≡ true) ⊎ Alike v w) × AlikeMembers ms ns
    AlikeMembers _ _ = ⊥

    pub AlikeItems : Items → Items → Type 0
    AlikeItems no_item no_item = Unit
    AlikeItems (item v xs) (item w ys) = Alike v w × AlikeItems xs ys
    AlikeItems _ _ = ⊥

  one_member :
      (k j : Text) (v w : Json)
      → k ≡ j
      → (is_redacted to_lower fields k ≡ true) ⊎ (v ≡ w)
      → (if is_redacted to_lower fields k then marker else v)
        ≡ (if is_redacted to_lower fields j then marker else w)
  one_member k j v w e (inl t) =
      if-true (is_redacted to_lower fields k) marker v t
      ∙ sym (
          if-true (is_redacted to_lower fields j) marker w
            (ap (is_redacted to_lower fields) (sym e) ∙ t))
  one_member k j v w e (inr s) = rw (e, s) refl

  same_member :
      (k j : Text) (v w : Json) (ms ns : Members)
      → k ≡ j
      → v ≡ w
      → ms ≡ ns
      → member k v ms ≡ member j w ns
  same_member k j v w ms ns e f g = rw (e, f, g) refl

  mutual
    unfolding redact_value Alike

    hides :
        (v w : Json) → Alike v w → redact_value to_lower fields v ≡ redact_value to_lower fields w
    hides (object ms) (object ns) h = ap object (hides_members ms ns h)
    hides (array xs) (array ys) h = ap array (hides_items xs ys h)
    hides (scalar s) (scalar t) h = ap scalar h
    hides (object ms) (array ys) h = absurd h
    hides (object ms) (scalar t) h = absurd h
    hides (array xs) (object ns) h = absurd h
    hides (array xs) (scalar t) h = absurd h
    hides (scalar s) (object ns) h = absurd h
    hides (scalar s) (array ys) h = absurd h

    hides_members :
        (ms ns : Members)
        → AlikeMembers ms ns
        → redact_members to_lower fields ms ≡ redact_members to_lower fields ns
    hides_members no_member no_member h = refl
    hides_members (member k v ms) (member j w ns) h =
        same_member k j _ _ _ _ h.0
          (one_member k j (redact_value to_lower fields v) (redact_value to_lower fields w) h.0
            (elim h.1 [ inl t ↦ inl t | inr a ↦ inr (hides v w a) ]))
          (hides_members ms ns h.2)
    hides_members no_member (member j w ns) h = absurd h
    hides_members (member k v ms) no_member h = absurd h

    hides_items :
        (xs ys : Items)
        → AlikeItems xs ys
        → redact_items to_lower fields xs ≡ redact_items to_lower fields ys
    hides_items no_item no_item h = refl
    hides_items (item v xs) (item w ys) h = rw (hides v w h.0, hides_items xs ys h.1) refl
    hides_items no_item (item w ys) h = absurd h
    hides_items (item v xs) no_item h = absurd h

  object-injective : (ms ns : Members) → object ms ≡ object ns → ms ≡ ns
  object-injective ms ns e = cc

  array-injective : (xs ys : Items) → array xs ≡ array ys → xs ≡ ys
  array-injective xs ys e = cc

  scalar-injective : (s t : Scalar) → scalar s ≡ scalar t → s ≡ t
  scalar-injective s t e = cc

  member-injective :
      (k j : Text) (v w : Json) (ms ns : Members)
      → member k v ms ≡ member j w ns
      → (k ≡ j) × (v ≡ w) × (ms ≡ ns)
  member-injective k j v w ms ns e = (cc, cc, cc)

  item-injective : (v w : Json) (xs ys : Items) → item v xs ≡ item w ys → (v ≡ w) × (xs ≡ ys)
  item-injective v w xs ys e = (cc, cc)

  -- The value of a member that is not redacted shows.
  plain_member :
      (k j : Text) (v w : Json)
      → k ≡ j
      → is_redacted to_lower fields k ≡ false
      → (if is_redacted to_lower fields k then marker else v)
        ≡ (if is_redacted to_lower fields j then marker else w)
      → v ≡ w
  plain_member k j v w e f h =
      sym (if-false (is_redacted to_lower fields k) marker v f)
      ∙ h
      ∙ if-false (is_redacted to_lower fields j) marker w
          (ap (is_redacted to_lower fields) (sym e) ∙ f)

  mutual
    unfolding redact_value Alike

    shows :
        (v w : Json) → redact_value to_lower fields v ≡ redact_value to_lower fields w → Alike v w
    shows (object ms) (object ns) h = shows_members ms ns (object-injective _ _ h)
    shows (array xs) (array ys) h = shows_items xs ys (array-injective _ _ h)
    shows (scalar s) (scalar t) h = scalar-injective s t h
    shows (object ms) (array ys) h = cc
    shows (object ms) (scalar t) h = cc
    shows (array xs) (object ns) h = cc
    shows (array xs) (scalar t) h = cc
    shows (scalar s) (object ns) h = cc
    shows (scalar s) (array ys) h = cc

    shows_members :
        (ms ns : Members)
        → redact_members to_lower fields ms ≡ redact_members to_lower fields ns
        → AlikeMembers ms ns
    shows_members no_member no_member h = tt
    shows_members (member k v ms) (member j w ns) h =
        let p = member-injective k j _ _ _ _ h in
        (
          p.0,
          elim (Bool-cases (is_redacted to_lower fields k)) [
            | inl t ↦ inl t
            | inr f ↦ inr (
                shows v w (
                  plain_member k j (redact_value to_lower fields v) (redact_value to_lower fields w)
                    p.0 f p.1))
          ],
          shows_members ms ns p.2,
        )
    shows_members no_member (member j w ns) h = cc
    shows_members (member k v ms) no_member h = cc

    shows_items :
        (xs ys : Items)
        → redact_items to_lower fields xs ≡ redact_items to_lower fields ys
        → AlikeItems xs ys
    shows_items no_item no_item h = tt
    shows_items (item v xs) (item w ys) h =
        let p = item-injective _ _ _ _ h in (shows v w p.0, shows_items xs ys p.1)
    shows_items no_item (item w ys) h = cc
    shows_items (item v xs) no_item h = cc

  -- Two values look the same once they are redacted exactly if they differ at most in the values of members
  -- whose names, as strings.ToLower has them, are among the fields to redact, at any depth.
  pub redact_value_iff :
      (v w : Json) → (redact_value to_lower fields v ≡ redact_value to_lower fields w) ↔ Alike v w
  redact_value_iff v w = (shows v w, hides v w)

module _ (encoding : Encoding) (fields : List Text) where
  -- If there are fields to redact, two bodies that are not empty and are JSON, of values that can be written,
  -- come into the audit log in the same form if the values differ at most in redacted members.
  pub sanitize_body-hides :
      (a b out : Text) (v w : Json) (max_bytes : ℕ)
      → is_empty fields ≡ false
      → is_empty a ≡ false
      → is_empty b ≡ false
      → encoding.is_valid a ≡ true
      → encoding.is_valid b ≡ true
      → encoding.unmarshal a ≡ some v
      → encoding.unmarshal b ≡ some w
      → encoding.marshal (redact_value encoding.to_lower fields v) ≡ some out
      → Alike encoding.to_lower fields v w
      → sanitize_body encoding a max_bytes fields ≡ sanitize_body encoding b max_bytes fields
  unfolding sanitize_body redacted_body
  sanitize_body-hides a b out v w max_bytes f ea eb va vb ua ub m alike =
      let n : encoding.marshal (redact_value encoding.to_lower fields w) ≡ some out =
        ap encoding.marshal (sym (hides encoding.to_lower fields v w alike)) ∙ m in
      rw (ea, eb, va, vb, f, ua, ub, m, n, sanitize_body, redacted_body) refl
