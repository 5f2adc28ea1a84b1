-- ===== src/Admin/Limits.antt =====
-- What the admin API keeps true of every key in the store, whatever requests it handles.
use pdag.Common.{
  ℕ, ◌≡◌, ◌≤◌, inl, inr, refl, sym, Bool, true, false, Text, List, [], ◌∷◌, Option, none, some, all,
  length, ltb, arith, Bool-cases, subst,
}
use pdag.Store.{
  Keys, set_enabled, set_roles, set_allowed_cidrs, update_hash, set_expires_at, with_enabled,
  with_roles, with_allowed_cidrs, with_hash, with_expires_at,
}
use pdag.Authn.{Crypto}
use pdag.Admin.{
  State, Conditions, no_content, rotated, look_up, Validated, valid, invalid, validate_roles,
  max_allowed_cidrs,
}
use pdag.Admin.Keygen.{Generator, Random, generate_secret, hash}
use pdag.Admin.Handlers.{
  Parsers, purge_expired, Expiry, never, at, rejected, parse_expiry, delete_key, set_key_enabled,
  write_expiry, set_expiry, write_roles, update_roles, update_allowed_cidrs, rotate_found,
  rotate_key,
}
use pdag.Admin.Server.{
  Route, create_route, get_route, list_route, purge_route, delete_route, disable_route,
  enable_route, rotate_route, roles_route, cidrs_route, expiry_route, handler,
}
use pdag.Admin.Roles.{ProperRoles}
use pdag.Admin.Settled.{Found-cases, get_key-reads, list_keys-reads}
use pdag.Admin.Invariant.{
  AllProper, mutate-Proper, delete-Proper, delete_expired-Proper, mutation-Proper,
}
use pdag.Admin.Creation.{checked-ProperRoles, create_key-Proper}

module _ (crypto : Crypto) (encode_to_string : Text → Text) (keygen : Generator)
    (parsers : Parsers) where
  open parsers use {is_cidr}

  -- The calls of the store that the handlers make.
  set_expires_at-Proper :
      (keys : Keys) (id : Text) (expires_at : Option ℕ) (now : ℕ)
      → AllProper is_cidr keys
      → AllProper is_cidr (set_expires_at keys id expires_at now).0
  unfolding set_expires_at
  set_expires_at-Proper keys id expires_at now =
      mutate-Proper is_cidr (with_expires_at expires_at) keys id now (λ rec p. record {
        named = p.named;
        principal_len = p.principal_len;
        roles = p.roles;
        cidrs_len = p.cidrs_len;
        cidrs = p.cidrs;
      })

  set_enabled-Proper :
      (keys : Keys) (id : Text) (enabled : Bool) (now : ℕ)
      → AllProper is_cidr keys
      → AllProper is_cidr (set_enabled keys id enabled now).0
  unfolding set_enabled
  set_enabled-Proper keys id enabled now =
      mutate-Proper is_cidr (with_enabled enabled) keys id now (λ rec p. record {
        named = p.named;
        principal_len = p.principal_len;
        roles = p.roles;
        cidrs_len = p.cidrs_len;
        cidrs = p.cidrs;
      })

  update_hash-Proper :
      (keys : Keys) (id hash hmac_key_id : Text) (now : ℕ)
      → AllProper is_cidr keys
      → AllProper is_cidr (update_hash keys id hash hmac_key_id now).0
  unfolding update_hash
  update_hash-Proper keys id hash hmac_key_id now =
      mutate-Proper is_cidr (with_hash hash hmac_key_id) keys id now (λ rec p. record {
        named = p.named;
        principal_len = p.principal_len;
        roles = p.roles;
        cidrs_len = p.cidrs_len;
        cidrs = p.cidrs;
      })

  set_roles-Proper :
      (keys : Keys) (id : Text) (roles : List Text) (now : ℕ)
      → ProperRoles roles
      → AllProper is_cidr keys
      → AllProper is_cidr (set_roles keys id roles now).0
  unfolding set_roles
  set_roles-Proper keys id roles now r =
      mutate-Proper is_cidr (with_roles roles) keys id now (λ rec p. record {
        named = p.named;
        principal_len = p.principal_len;
        roles = r;
        cidrs_len = p.cidrs_len;
        cidrs = p.cidrs;
      })

  set_allowed_cidrs-Proper :
      (keys : Keys) (id : Text) (cidrs : List Text) (now : ℕ)
      → length cidrs ≤ max_allowed_cidrs
      → all is_cidr cidrs ≡ true
      → AllProper is_cidr keys
      → AllProper is_cidr (set_allowed_cidrs keys id cidrs now).0
  unfolding set_allowed_cidrs
  set_allowed_cidrs-Proper keys id cidrs now l a =
      mutate-Proper is_cidr (with_allowed_cidrs cidrs) keys id now (λ rec p. record {
        named = p.named;
        principal_len = p.principal_len;
        roles = p.roles;
        cidrs_len = l;
        cidrs = a;
      })

  write_expiry-Proper :
      (c : Conditions) (s : State) (id : Text) (expiry : Expiry)
      → AllProper is_cidr s.keys
      → AllProper is_cidr (write_expiry parsers c s id expiry).0.keys
  unfolding write_expiry set_expires_at
  write_expiry-Proper c s id (rejected message) h = h
  write_expiry-Proper c s id never h =
      mutation-Proper is_cidr c s id _ no_content _ h (set_expires_at-Proper s.keys id none c.now h)
  write_expiry-Proper c s id (at t) h =
      mutation-Proper is_cidr c s id _ no_content _ h
        (set_expires_at-Proper s.keys id (some t) c.now h)

  write_roles-Proper :
      (c : Conditions) (s : State) (id : Text) (roles : List Text) (v : Validated)
      → validate_roles roles ≡ v
      → AllProper is_cidr s.keys
      → AllProper is_cidr (write_roles parsers c s id v).0.keys
  unfolding write_roles
  write_roles-Proper c s id roles (invalid message) e h = h
  write_roles-Proper c s id roles (valid cleaned) e h =
      mutation-Proper is_cidr c s id _ no_content _ h (
        set_roles-Proper s.keys id cleaned c.now
          (checked-ProperRoles crypto encode_to_string keygen parsers roles cleaned e) h)

  update_allowed_cidrs-Proper :
      (c : Conditions) (s : State) (id : Text) (body : Option (List Text))
      → AllProper is_cidr s.keys
      → AllProper is_cidr (update_allowed_cidrs parsers c s id body).0.keys
  unfolding update_allowed_cidrs
  update_allowed_cidrs-Proper c s id none h = h
  update_allowed_cidrs-Proper c s id (some cidrs) h =
      elim (Bool-cases (ltb max_allowed_cidrs (length cidrs))) [
        | inl e ↦ rw (e, update_allowed_cidrs) h
        | inr e ↦ elim (Bool-cases (all parsers.is_cidr cidrs)) [
          | inl f ↦
              rw (e, f, update_allowed_cidrs)
                (mutation-Proper is_cidr c s id _ no_content _ h
                  (set_allowed_cidrs-Proper s.keys id cidrs c.now (ground arith) f h))
          | inr f ↦ rw (e, f, update_allowed_cidrs) h
        ]
      ]

  rotate_found-Proper :
      (c : Conditions) (s : State) (id : Text) (secret : Option Text)
      → AllProper is_cidr s.keys
      → AllProper is_cidr (rotate_found parsers crypto encode_to_string keygen c s id secret).0.keys
  unfolding rotate_found
  rotate_found-Proper c s id none h = h
  rotate_found-Proper c s id (some secret) h =
      mutation-Proper is_cidr c s id _ (rotated id secret) _ h
        (update_hash-Proper s.keys id _ keygen.hmac_key_id c.now h)

  rotate_key-Proper :
      (c : Conditions) (s : State) (random : Random) (id : Text)
      → AllProper is_cidr s.keys
      → AllProper is_cidr (rotate_key parsers crypto encode_to_string keygen c s random id).0.keys
  unfolding rotate_key
  rotate_key-Proper c s random id h = elim (Found-cases (look_up c s.keys id)) [
    | inl e ↦ rw (e, rotate_key) h
    | inr (inl e) ↦ rw (e, rotate_key) h
    | inr (inr (rec, e)) ↦
        rw (e, rotate_key)
          (rotate_found-Proper c s id (generate_secret crypto encode_to_string random) h)
  ]

  purge_expired-Proper :
      (c : Conditions) (s : State)
      → AllProper is_cidr s.keys
      → AllProper is_cidr (purge_expired c s).0.keys
  unfolding purge_expired
  purge_expired-Proper c s h = elim (Bool-cases c.writes_fail) [
    | inl w ↦ rw (w, purge_expired) h
    | inr w ↦ elim (Bool-cases c.audit_fails) [
      | inl a ↦ rw (w, a, purge_expired) (delete_expired-Proper is_cidr s.keys c.now h)
      | inr a ↦ rw (w, a, purge_expired) (delete_expired-Proper is_cidr s.keys c.now h)
    ]
  ]

  reads_only : (s s' : State) → s' ≡ s → AllProper is_cidr s.keys → AllProper is_cidr s'.keys
  reads_only s s' e h = subst (λ t. AllProper is_cidr t.keys) (sym e) h

  handler-Proper :
      (c : Conditions) (s : State) (random : Random) (route : Route)
      → AllProper is_cidr s.keys
      → AllProper is_cidr (handler crypto encode_to_string keygen parsers c s random route).0.keys
  unfolding handler delete_key set_key_enabled update_roles set_expiry
  handler-Proper c s random (create_route body) h =
      create_key-Proper crypto encode_to_string keygen parsers c s random body h
  handler-Proper c s random (get_route id) h = reads_only s _ (get_key-reads c s id) h
  handler-Proper c s random (list_route limit offset principal role) h =
      reads_only s _ (list_keys-reads parsers c s limit offset principal role) h
  handler-Proper c s random purge_route h = purge_expired-Proper c s h
  handler-Proper c s random (delete_route id) h =
      mutation-Proper is_cidr c s id _ no_content _ h (delete-Proper is_cidr s.keys id h)
  handler-Proper c s random (disable_route id) h =
      mutation-Proper is_cidr c s id _ no_content _ h (set_enabled-Proper s.keys id false c.now h)
  handler-Proper c s random (enable_route id) h =
      mutation-Proper is_cidr c s id _ no_content _ h (set_enabled-Proper s.keys id true c.now h)
  handler-Proper c s random (roles_route id none) h = h
  handler-Proper c s random (roles_route id (some roles)) h =
      write_roles-Proper c s id roles (validate_roles roles) refl h
  handler-Proper c s random (rotate_route id) h = rotate_key-Proper c s random id h
  handler-Proper c s random (cidrs_route id body) h = update_allowed_cidrs-Proper c s id body h
  handler-Proper c s random (expiry_route id none) h = h
  handler-Proper c s random (expiry_route id (some expires_at)) h =
      write_expiry-Proper c s id (parse_expiry parsers c.now expires_at) h

  -- Requests one after another, each with its conditions and its random bytes.
  abbrev pub serve_all : State → List (Conditions × Random × Route) → State
  serve_all s [] = s
  serve_all s ((c, random, route) ∷ reqs) =
      serve_all (handler crypto encode_to_string keygen parsers c s random route).0 reqs

  -- If every key of the store keeps to the limits of the API, so does every key after any requests: its
  -- principal is not empty and has at most 256 bytes, it has between 1 and 64 roles, none empty and each of at
  -- most 128 bytes, and at most 256 allowed CIDRs, each of which parses.
  pub serve_all-AllProper :
      (s : State) (reqs : List (Conditions × Random × Route))
      → AllProper is_cidr s.keys
      → AllProper is_cidr (serve_all s reqs).keys
  serve_all-AllProper s [] h = h
  serve_all-AllProper s ((c, random, route) ∷ reqs) h =
      serve_all-AllProper (handler crypto encode_to_string keygen parsers c s random route).0 reqs
        (handler-Proper c s random route h)
