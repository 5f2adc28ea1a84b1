-- ===== src/Plugins/ZoneNotify.antt =====
-- plugins/zone_notify/main.go
use pdag.Common.{
  ◌≡◌, ◌↔◌, refl, sym, ap, ◌∙◌, Bool, true, false, ◌&&◌, Text, codes, text_eq, text_eq_iff, ◌++◌,
  List, [], ◌∷◌, length, leb, split, contains_byte, trim_prefix, has_prefix, has_suffix,
  has_suffix-append, split-append, split-no_separator, arith, if◌then◌else◌,
}
use mathlib.Core.List.{append_assoc}
use pdag.Authz.{HttpRequest}
use pdag.Manager.{allows}
use pdag.Plugins.{AuthorizeResponse, allow, deny, path_parts, under_zones}
use pdag.Plugins.Paths.{below_zones, under_zones_iff}

-- isZoneSubpath
unfoldable pub is_zone_subpath : Text → Bool
is_zone_subpath path = leb 6 (length (path_parts path)) && under_zones (path_parts path)

unfoldable pub authorize : HttpRequest → AuthorizeResponse
unfolding is_zone_subpath
authorize req =
    if text_eq req.method (codes "PUT")
      && (has_suffix (codes "/notify") req.path && is_zone_subpath req.path)
    then allow (codes "zone_notify: zone notify")
    else deny (
        codes "zone_notify: only PUT to zone notify allowed, got "
        ++ req.method
        ++ codes " "
        ++ req.path)

-- The plugin allows a request exactly if it is a PUT, its path ends in /notify, and the parts of the path are
-- those of a zone of a server, or of something below a zone.
pub zone_notify_iff :
    (req : HttpRequest)
    → ((authorize req).decision ≡ allows) ↔ (
        (req.method ≡ codes "PUT")
        × (has_suffix (codes "/notify") req.path ≡ true)
        × ((server : Text) × (zone : Text) × (rest : List Text) × (path_parts req.path
              ≡ below_zones server (zone ∷ rest))))
unfolding authorize is_zone_subpath
zone_notify_iff req =
    let m = text_eq_iff req.method (codes "PUT") in
    let z = under_zones_iff (path_parts req.path) in
    (λ h. (ground arith, ground arith, z.0 (ground arith)), λ x. (let u = z.1 x.2 in ground arith))

ends_in_notify :
    (path server : Text)
    → path ≡ codes "/api/v1/servers/" ++ server ++ codes "/zones/notify"
    → has_suffix (codes "/notify") path ≡ true
ends_in_notify path server p =
    let e : path ≡ (codes "/api/v1/servers/" ++ server ++ codes "/zones") ++ codes "/notify" =
      p
      ∙ ap (λ t. codes "/api/v1/servers/" ++ t)
          (sym (append_assoc server (codes "/zones") (codes "/notify"))) in
    rw e
      (has_suffix-append (codes "/notify") (codes "/api/v1/servers/" ++ server ++ codes "/zones"))

notify_parts :
    (server : Text)
    → contains_byte b'/' server ≡ false
    → path_parts (codes "/api/v1/servers/" ++ server ++ codes "/zones/notify")
      ≡ below_zones server (codes "notify" ∷ [])
unfolding trim_prefix has_prefix split
notify_parts server h =
    rw (split-append b'/' server (codes "zones/notify"))
      (rw (split-no_separator b'/' server h) refl)

-- A PUT of the zone whose name is notify is allowed, on any server whose name has no slash, though no
-- notification is asked for.
pub zone_named_notify :
    (req : HttpRequest) (server : Text)
    → contains_byte b'/' server ≡ false
    → req.method ≡ codes "PUT"
    → req.path ≡ codes "/api/v1/servers/" ++ server ++ codes "/zones/notify"
    → (authorize req).decision ≡ allows
zone_named_notify req server h m p = (zone_notify_iff req).1 (
  m,
  ends_in_notify req.path server p,
  (server, codes "notify", [], ap path_parts p ∙ notify_parts server h),
)
