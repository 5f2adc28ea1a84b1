-- ===== src/HttpRoute/Tests.antt =====
-- Labels of concrete paths.
use pdag.Common.{◌≡◌, refl, codes, ◌∷◌, ◌++◌, split, trim_prefix, text_eq, join, contains_byte}
use pdag.HttpRoute.{trim_trailing, zone_tail, under_server, label, normalize}
use pdag.HttpRoute.Labels.{normalize_unbounded}

masked :
    normalize (codes "/api/v1/servers/localhost/zones/example.org./cryptokeys/7/")
    ≡ codes "/api/v1/servers/:server_id/zones/:zone_id/cryptokeys/:cryptokey_id"
unfolding normalize label under_server zone_tail trim_trailing split trim_prefix text_eq join
masked = refl

normalize_unbounded_example :
    normalize (codes "/api/v1/servers/" ++ (codes "s" ++ b'/' ∷ codes "x1"))
    ≡ codes "/api/v1/servers/:server_id/" ++ codes "x1"
unfolding text_eq contains_byte
normalize_unbounded_example = normalize_unbounded (codes "s") (codes "x1") refl refl refl refl
