-- ===== src/Plugins/Challenger.antt =====
-- plugins/letsencrypt_dns_challenger/main.go: what json.Unmarshal reads of a body, `none` for its error, and the
-- two lookups of net.Resolver, each with its own timeout, are parameters.
use pdag.Common.{
  ◌≡◌, ◌≢◌, ◌↔◌, refl, sym, subst, Bool, true, false, not, ◌&&◌, ◌||◌, ◌==◌, Text, codes, text_eq,
  text_eq_iff, ◌++◌, List, [], ◌∷◌, Option, none, some, length, is_empty, All, trim_prefix,
  has_prefix, append-trim_prefix, has_prefix-append, trim_prefix-append, arith, if◌then◌else◌,
}
use pdag.Authz.{HttpRequest}
use pdag.Manager.{allows}
use pdag.Plugins.{AuthorizeResponse, allow, deny, path_parts, under_zones}
use pdag.Plugins.Paths.{below_zones, zone_path_iff}

pub record Rrset : Type 0 where
  pub name : Text
  pub type : Text
  pub change_type : Text

-- What is used of encoding/json and of net.Resolver.
pub record Services : Type 0 where
  pub unmarshal : Text → Option (List Rrset)
  pub lookup_host : Text → Option (List Text)
  pub lookup_cname : Text → Option Text

abbrev pub challenge : Text
challenge = codes "_acme-challenge."

-- isZonePath
unfoldable pub is_zone_path : Text → Bool
is_zone_path path = length (path_parts path) == 6 && under_zones (path_parts path)

module _ (services : Services) where
  open services use {unmarshal, lookup_host, lookup_cname}

  abbrev pub has_address : Option (List Text) → Bool
  has_address none = false
  has_address (some addrs) = not (is_empty addrs)

  abbrev pub is_alias : Text → Option Text → Bool
  is_alias fqdn none = false
  is_alias fqdn (some cname) = not (text_eq cname []) && not (text_eq cname fqdn)

  unfoldable pub resolvable : Text → Bool
  resolvable fqdn =
      if has_address (lookup_host fqdn) then true else is_alias fqdn (lookup_cname fqdn)

  -- The loop over the RRsets.
  unfoldable pub check_rrsets : List Rrset → AuthorizeResponse
  unfolding resolvable
  check_rrsets [] = allow (codes "letsencrypt: valid ACME challenge records")
  check_rrsets (rr ∷ rrs) =
      let rest = check_rrsets rrs in
      if not (text_eq rr.type (codes "TXT"))
      then deny (codes "letsencrypt: only TXT records allowed, got " ++ rr.type)
      else if not (has_prefix challenge rr.name)
      then deny (codes "letsencrypt: name must start with _acme-challenge., got " ++ rr.name)
      else if not (resolvable (trim_prefix challenge rr.name))
      then deny
          (codes "letsencrypt: FQDN " ++ trim_prefix challenge rr.name ++ codes " does not resolve")
      else rest

  -- What follows the parsing of the body; the message about invalid JSON ends with the parser's error.
  unfoldable pub check_body : Option (List Rrset) → AuthorizeResponse
  unfolding check_rrsets
  check_body none = deny (codes "letsencrypt: invalid JSON body")
  check_body (some []) = deny (codes "letsencrypt: empty rrsets")
  check_body (some (rr ∷ rrs)) = check_rrsets (rr ∷ rrs)

  unfoldable pub authorize : HttpRequest → AuthorizeResponse
  unfolding check_body is_zone_path
  authorize req =
      if not (text_eq req.method (codes "PATCH")) || not (is_zone_path req.path)
      then deny (
          codes "letsencrypt: only PATCH to zones allowed, got "
          ++ req.method
          ++ codes " "
          ++ req.path)
      else check_body (unmarshal req.body)

  -- A TXT record of the ACME challenge for a name that resolves.
  abbrev pub ChallengeRecord : Rrset → Type 0
  ChallengeRecord rr =
      (rr.type ≡ codes "TXT")
      × ((fqdn : Text) × (rr.name ≡ challenge ++ fqdn) × (resolvable fqdn ≡ true))

  challenge_name_iff :
      (name : Text)
      → ((has_prefix challenge name ≡ true) × (resolvable (trim_prefix challenge name) ≡ true))
        ↔ ((fqdn : Text) × (name ≡ challenge ++ fqdn) × (resolvable fqdn ≡ true))
  challenge_name_iff name = (
    λ h. (trim_prefix challenge name, sym (append-trim_prefix challenge name h.0), h.1),
    λ e.
        rw e.1 (rw (has_prefix-append challenge e.0, trim_prefix-append challenge e.0) (refl, e.2)),
  )

  -- The tests of the loop's body.
  abbrev Passed : Rrset → Type 0
  Passed rr =
      (text_eq rr.type (codes "TXT") ≡ true)
      × (has_prefix challenge rr.name ≡ true)
      × (resolvable (trim_prefix challenge rr.name) ≡ true)

  rrset_iff :
      (rr : Rrset) (rrs : List Rrset)
      → ((check_rrsets (rr ∷ rrs)).decision ≡ allows)
        ↔ (Passed rr × ((check_rrsets rrs).decision ≡ allows))
  unfolding check_rrsets
  rrset_iff rr rrs = ground arith

  check_rrsets_iff :
      (rrs : List Rrset) → ((check_rrsets rrs).decision ≡ allows) ↔ All ChallengeRecord rrs
  unfolding check_rrsets
  check_rrsets_iff [] = (λ h. tt, λ v. refl)
  check_rrsets_iff (rr ∷ rrs) =
      let passed = rrset_iff rr rrs in
      let type = text_eq_iff rr.type (codes "TXT") in
      let name = challenge_name_iff rr.name in
      let rest = check_rrsets_iff rrs in
      (
        λ h. (let p = passed.0 h in ((type.0 p.0.0, name.0 (p.0.1, p.0.2)), rest.0 p.1)),
        λ v. (let n = name.1 v.0.1 in passed.1 ((type.1 v.0.0, n.0, n.1), rest.1 v.1)),
      )

  -- What the body asks for.
  abbrev pub ChallengeBody : Option (List Rrset) → Type 0
  ChallengeBody body = (rrs : List Rrset) × (body ≡ some rrs) × (rrs ≢ []) × All ChallengeRecord rrs

  check_body_iff :
      (body : Option (List Rrset)) → ((check_body body).decision ≡ allows) ↔ ChallengeBody body
  unfolding check_body
  check_body_iff none = (λ h. absurd (ground arith), λ e. let q = e.1 in absurd (ground arith))
  check_body_iff (some []) = (λ h. absurd (ground arith), λ e. absurd (e.2 (let q = e.1 in cc)))
  check_body_iff (some (rr ∷ rrs)) =
      let all = check_rrsets_iff (rr ∷ rrs) in
      (
        λ h. (rr ∷ rrs, refl, (λ z. cc), all.0 h),
        λ e.
            (let q : e.0 ≡ rr ∷ rrs = (let r = e.1 in cc) in
              all.1 (subst (λ l. All ChallengeRecord l) q e.3)),
      )

  -- The plugin allows a request exactly if it is a PATCH of a zone of a server, and its body parses, with at
  -- least one RRset, each a TXT record whose name is _acme-challenge. and a name that resolves.
  pub challenger_iff :
      (req : HttpRequest)
      → ((authorize req).decision ≡ allows) ↔ (
          (req.method ≡ codes "PATCH")
          × ((server : Text) × (zone : Text) × (path_parts req.path
                ≡ below_zones server (zone ∷ [])))
          × ChallengeBody (unmarshal req.body))
  unfolding authorize is_zone_path
  challenger_iff req =
      let method = text_eq_iff req.method (codes "PATCH") in
      let path = zone_path_iff (path_parts req.path) in
      let body = check_body_iff (unmarshal req.body) in
      (
        λ h. (ground arith, path.0 (ground arith), body.0 (ground arith)),
        λ x. (let m = method.1 x.0 in let p = path.1 x.1 in let b = body.1 x.2 in ground arith),
      )
