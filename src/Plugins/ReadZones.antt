-- ===== src/Plugins/ReadZones.antt =====
-- plugins/read_zones/main.go: the two regular expressions are what they match. One is a text, the other the
-- text, a slash, and at least one of the bytes of its class.
use pdag.Common.{
  ℕ, ◌≡◌, ◌↔◌, ◌⊎◌, inl, inr, refl, sym, Bool, true, false, not, ◌&&◌, ◌||◌, ◌==◌, leb, Text, codes,
  text_eq, text_eq_iff, ◌++◌, all, is_empty, has_prefix, trim_prefix, has_prefix-append,
  trim_prefix-append, append-trim_prefix, arith, if◌then◌else◌, Bool-cases,
}
use pdag.Authz.{HttpRequest}
use pdag.Manager.{allows}
use pdag.Plugins.{AuthorizeResponse, allow, deny}

abbrev pub zones : Text
zones = codes "/api/v1/servers/localhost/zones"

abbrev pub zones_slash : Text
zones_slash = codes "/api/v1/servers/localhost/zones/"

-- [a-z0-9.-]
abbrev pub is_zone_byte : ℕ → Bool
is_zone_byte c =
    (leb b'a' c && leb c b'z') || ((leb b'0' c && leb c b'9') || (c == b'.' || c == b'-'))

-- ^/api/v1/servers/localhost/zones/[a-z0-9.-]+$
unfoldable pub matches_zone : Text → Bool
matches_zone path =
    has_prefix zones_slash path
    && (not (is_empty (trim_prefix zones_slash path))
        && all is_zone_byte (trim_prefix zones_slash path))

unfoldable pub authorize : HttpRequest → AuthorizeResponse
authorize req =
    if not (text_eq req.method (codes "GET"))
    then deny (codes "read_zones: only GET is allowed")
    else if text_eq req.path zones || matches_zone req.path
    then allow (codes "read_zones: GET on zones endpoint")
    else deny (codes "read_zones: path not allowed")

-- A zone of localhost, in the bytes that the plugin takes.
abbrev pub ZonePath : Text → Type 0
ZonePath path =
    (zone : Text) × (path ≡ zones_slash ++ zone)
    × (is_empty zone ≡ false)
    × (all is_zone_byte zone ≡ true)

matches_zone_iff : (path : Text) → (matches_zone path ≡ true) ↔ ZonePath path
unfolding matches_zone
matches_zone_iff path = (
  λ h. elim (Bool-cases (has_prefix zones_slash path)) [
    | inr f ↦ let h' = rw (f, matches_zone) at h in absurd (ground arith)
    | inl t ↦
        (let h' = rw (t, matches_zone) at h in
          (
            trim_prefix zones_slash path,
            sym (append-trim_prefix zones_slash path t),
            ground arith,
            ground arith,
          ))
  ],
  λ z. rw z.1 (
      rw (has_prefix-append zones_slash z.0, trim_prefix-append zones_slash z.0)
        (rw (z.2, z.3) refl)),
)

-- The plugin allows a request exactly if it is a GET of the zones of localhost, or of one of them whose name
-- is not empty and has only small letters, digits, dots and dashes.
pub read_zones_iff :
    (req : HttpRequest)
    → ((authorize req).decision ≡ allows)
      ↔ ((req.method ≡ codes "GET") × ((req.path ≡ zones) ⊎ ZonePath req.path))
unfolding authorize
read_zones_iff req = ground (
  arith,
  text_eq_iff req.method (codes "GET"),
  text_eq_iff req.path zones,
  matches_zone_iff req.path,
)
