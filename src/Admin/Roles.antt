-- ===== src/Admin/Roles.antt =====
-- What the admin API lets into the store: which roles validateRoles takes, and what then holds of every key.
use pdag.Common.{
  ◌≡◌, ◌≢◌, ◌⊎◌, ◌↔◌, ◌≤◌, inl, inr, refl, sym, ap, ◌∙◌, Text, text_eq, codes, text_eq_iff,
  trim_space, List, [], ◌∷◌, map, All, length, ltb, if◌then◌else◌, arith, Bool-cases,
}
use pdag.Admin.{Validated, valid, invalid, clean_roles, validate_roles, max_roles, max_role_len}

-- What validateRoles lets through.
abbrev pub ProperRole : Text → Type 0
ProperRole role = (role ≢ []) × (length role ≤ max_role_len)

abbrev pub ProperRoles : List Text → Type 0
ProperRoles roles = (1 ≤ length roles) × (length roles ≤ max_roles) × All ProperRole roles

Validated-cases :
    (v : Validated)
    → ((cleaned : List Text) × (v ≡ valid cleaned)) ⊎ ((message : Text) × (v ≡ invalid message))
Validated-cases (valid cleaned) = inl (cleaned, refl)
Validated-cases (invalid message) = inr (message, refl)

valid-injective : (a b : List Text) → valid a ≡ valid b → a ≡ b
valid-injective a b e = cc

Proper-clean_roles :
    (roles : List Text)
    → All ProperRole (map trim_space roles)
    → clean_roles roles ≡ valid (map trim_space roles)
unfolding clean_roles
Proper-clean_roles [] h = refl
Proper-clean_roles (role ∷ roles) h =
    rw (Proper-clean_roles roles h.1) (ground (arith, text_eq_iff (trim_space role) [], h.0))

first_role :
    (role : Text) (rest cleaned : List Text)
    → (if text_eq role []
        then invalid (codes "roles must not be empty or blank")
        else if ltb max_role_len (length role)
        then invalid (codes "role exceeds maximum length of 128")
        else valid (role ∷ rest))
      ≡ valid cleaned
    → (cleaned ≡ role ∷ rest) × (role ≢ []) × (length role ≤ max_role_len)
first_role role rest cleaned h = elim (Bool-cases (text_eq role [])) [
  | inl e ↦ let h' = rw e at h in absurd (ground arith)
  | inr e ↦
      let h' = rw e at h in
      let both : (valid (role ∷ rest) ≡ valid cleaned) × (length role ≤ max_role_len) =
        ground arith in
      (
        sym (valid-injective (role ∷ rest) cleaned both.0),
        (λ z. ground (arith, text_eq_iff role [])),
        both.1,
      )
]

clean_roles-Proper :
    (roles cleaned : List Text)
    → clean_roles roles ≡ valid cleaned
    → (cleaned ≡ map trim_space roles) × All ProperRole (map trim_space roles)
unfolding clean_roles
clean_roles-Proper [] cleaned h = (sym (valid-injective [] cleaned h), tt)
clean_roles-Proper (role ∷ roles) cleaned h = elim (Validated-cases (clean_roles roles)) [
  | inr (message, e) ↦ let h' = rw (e, clean_roles) at h in absurd (ground arith)
  | inl (rest, e) ↦
      let h' = rw (e, clean_roles) at h in
      let r = clean_roles-Proper roles rest e in
      let f = first_role (trim_space role) rest cleaned h' in
      (f.0 ∙ ap (λ ys. trim_space role ∷ ys) r.0, ((f.1, f.2), r.1))
]

length-map : (roles : List Text) → length (map trim_space roles) ≡ length roles
length-map [] = refl
length-map (role ∷ roles) = rw (length-map roles)

-- validateRoles takes a list of roles, and gives their trimmed forms, exactly if there are between 1 and 64
-- of them and each, trimmed, is not empty and no longer than 128 bytes.
pub validate_roles_iff :
    (roles cleaned : List Text)
    → (validate_roles roles ≡ valid cleaned)
      ↔ ((cleaned ≡ map trim_space roles) × ProperRoles (map trim_space roles))
unfolding validate_roles
validate_roles_iff [] cleaned = (λ h. absurd (ground arith), λ h. absurd (ground arith))
validate_roles_iff (role ∷ roles) cleaned =
    elim (Bool-cases (ltb max_roles (length (role ∷ roles)))) [
      | inl e ↦
          rw (e, validate_roles)
            (λ h. absurd (ground arith), λ h. absurd (ground (arith, length-map roles)))
      | inr e ↦
          rw (e, validate_roles)
            (
              (λ h.
                  let r = clean_roles-Proper (role ∷ roles) cleaned h in
                  (r.0, (ground arith, ground (arith, length-map roles), r.1))),
              (λ h. Proper-clean_roles (role ∷ roles) h.1.2 ∙ ap valid (sym h.0)),
            )
    ]
