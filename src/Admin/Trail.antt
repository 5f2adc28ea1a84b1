-- ===== src/Admin/Trail.antt =====
-- What the handlers of the admin API leave behind: the store, its events, and the counter of inconsistencies.
use pdag.Common.{
  ◌≡◌, ◌⊎◌, inl, inr, refl, true, Text, List, Option, none, some, Bool-cases, ltb, length, all,
}
use pdag.Store.{delete_expired}
use pdag.Authn.{Crypto}
use pdag.Admin.{
  State, Conditions, Reply, no_content, rotated, look_up, Validated, valid, invalid, validate_roles,
  max_allowed_cidrs,
}
use pdag.Admin.Keygen.{Generator, Random, generate_secret}
use pdag.Admin.Handlers.{
  Parsers, purge_expired, Expiry, never, at, rejected, parse_expiry, delete_key, set_key_enabled,
  write_expiry, set_expiry, write_roles, update_roles, update_allowed_cidrs, rotate_found,
  rotate_key,
}
use pdag.Admin.Server.{
  Route, create_route, get_route, list_route, purge_route, delete_route, disable_route,
  enable_route, rotate_route, roles_route, cidrs_route, expiry_route, handler,
}
use pdag.Admin.Settled.{
  Settled, Found-cases, mutation-Settled, create_key-Settled, get_key-reads, list_keys-reads,
}

module _ (crypto : Crypto) (encode_to_string : Text → Text) (keygen : Generator)
    (parsers : Parsers) where
  write_expiry-Settled :
      (c : Conditions) (s : State) (id : Text) (expiry : Expiry)
      → Settled s (write_expiry parsers c s id expiry)
  unfolding write_expiry
  write_expiry-Settled c s id (rejected message) = inl refl
  write_expiry-Settled c s id never = mutation-Settled c s id _ no_content _ refl
  write_expiry-Settled c s id (at t) = mutation-Settled c s id _ no_content _ refl

  write_roles-Settled :
      (c : Conditions) (s : State) (id : Text) (v : Validated)
      → Settled s (write_roles parsers c s id v)
  unfolding write_roles
  write_roles-Settled c s id (invalid message) = inl refl
  write_roles-Settled c s id (valid roles) = mutation-Settled c s id _ no_content _ refl

  update_allowed_cidrs-Settled :
      (c : Conditions) (s : State) (id : Text) (body : Option (List Text))
      → Settled s (update_allowed_cidrs parsers c s id body)
  unfolding update_allowed_cidrs
  update_allowed_cidrs-Settled c s id none = inl refl
  update_allowed_cidrs-Settled c s id (some cidrs) =
      elim (Bool-cases (ltb max_allowed_cidrs (length cidrs))) [
        | inl e ↦ rw (e, update_allowed_cidrs) (inl refl)
        | inr e ↦ elim (Bool-cases (all parsers.is_cidr cidrs)) [
          | inl f ↦ rw (e, f, update_allowed_cidrs) (mutation-Settled c s id _ no_content _ refl)
          | inr f ↦ rw (e, f, update_allowed_cidrs) (inl refl)
        ]
      ]

  rotate_found-Settled :
      (c : Conditions) (s : State) (id : Text) (secret : Option Text)
      → Settled s (rotate_found parsers crypto encode_to_string keygen c s id secret)
  unfolding rotate_found
  rotate_found-Settled c s id none = inl refl
  rotate_found-Settled c s id (some secret) = mutation-Settled c s id _ (rotated id secret) _ refl

  rotate_key-Settled :
      (c : Conditions) (s : State) (random : Random) (id : Text)
      → Settled s (rotate_key parsers crypto encode_to_string keygen c s random id)
  unfolding rotate_key
  rotate_key-Settled c s random id = elim (Found-cases (look_up c s.keys id)) [
    | inl e ↦ rw (e, rotate_key) (inl refl)
    | inr (inl e) ↦ rw (e, rotate_key) (inl refl)
    | inr (inr (rec, e)) ↦
        rw (e, rotate_key)
          (rotate_found-Settled c s id (generate_secret crypto encode_to_string random))
  ]

  -- What a purge that is not audited leaves: no event, and no inconsistency counted.
  abbrev pub Unrecorded : Conditions → State → Route → State × Reply → Type 0
  Unrecorded c s route out =
      (route ≡ purge_route)
      × (c.audit_fails ≡ true)
      × (out.0.keys ≡ (delete_expired s.keys c.now).0)
      × (out.0.trail ≡ s.trail)
      × (out.0.inconsistency_total ≡ s.inconsistency_total)

  purge_expired-Settled :
      (c : Conditions) (s : State)
      → Settled s (purge_expired c s) ⊎ Unrecorded c s purge_route (purge_expired c s)
  unfolding purge_expired
  purge_expired-Settled c s = elim (Bool-cases c.writes_fail) [
    | inl w ↦ rw (w, purge_expired) (inl (inl refl))
    | inr w ↦ elim (Bool-cases c.audit_fails) [
      | inl a ↦ rw (w, a, purge_expired) (inr (refl, refl, refl, refl, refl))
      | inr a ↦ rw (w, a, purge_expired) (inl (inr (inl (((_, _), refl), refl, refl))))
    ]
  ]

  pub handler_settles :
      (c : Conditions) (s : State) (random : Random) (route : Route)
      → Settled s (handler crypto encode_to_string keygen parsers c s random route)
        ⊎ Unrecorded c s route (handler crypto encode_to_string keygen parsers c s random route)
  unfolding handler delete_key set_key_enabled update_roles set_expiry
  handler_settles c s random (create_route body) =
      inl (create_key-Settled crypto encode_to_string keygen parsers c s random body)
  handler_settles c s random (get_route id) = inl (inl (get_key-reads c s id))
  handler_settles c s random (list_route limit offset principal role) =
      inl (inl (list_keys-reads parsers c s limit offset principal role))
  handler_settles c s random purge_route = purge_expired-Settled c s
  handler_settles c s random (delete_route id) = inl (mutation-Settled c s id _ no_content _ refl)
  handler_settles c s random (disable_route id) = inl (mutation-Settled c s id _ no_content _ refl)
  handler_settles c s random (enable_route id) = inl (mutation-Settled c s id _ no_content _ refl)
  handler_settles c s random (roles_route id none) = inl (inl refl)
  handler_settles c s random (roles_route id (some roles)) =
      inl (write_roles-Settled c s id (validate_roles roles))
  handler_settles c s random (rotate_route id) = inl (rotate_key-Settled c s random id)
  handler_settles c s random (cidrs_route id body) = inl (update_allowed_cidrs-Settled c s id body)
  handler_settles c s random (expiry_route id none) = inl (inl refl)
  handler_settles c s random (expiry_route id (some expires_at)) =
      inl (write_expiry-Settled c s id (parse_expiry parsers c.now expires_at))
