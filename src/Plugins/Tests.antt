-- ===== src/Plugins/Tests.antt =====
-- Requests to the plugins.
use pdag.Common.{
  ◌≡◌, refl, Text, codes, text_eq, [], ◌∷◌, none, some, pos, contains_byte, split, trim_prefix,
  has_prefix,
}
use pdag.Authz.{HttpRequest}
use pdag.Manager.{allows}
use pdag.Plugins.ApiDiscovery as Discovery
use pdag.Plugins.ReadZones.{zones}
use pdag.Plugins.ReadZones as ReadZones
use pdag.Plugins.ZoneNotify.{zone_notify_iff, zone_named_notify}
use pdag.Plugins.ZoneNotify as ZoneNotify
use pdag.Plugins.Challenger.{Services, Rrset, challenger_iff, resolvable, ChallengeBody}
use pdag.Plugins.Challenger as Challenger

abbrev asking : Text → Text → Text → HttpRequest
asking method path body = record {
  method = method;
  scheme = [];
  host = [];
  path = path;
  raw_query = [];
  headers = [];
  body = body;
  content_length = pos 0;
  remote_addr = [];
  request_id = [];
  principal = [];
}

abbrev discovery : HttpRequest
discovery = asking (codes "GET") (codes "/api") []

discovery_allowed : (Discovery.authorize discovery).decision ≡ allows
unfolding Discovery.authorize text_eq
discovery_allowed = refl

abbrev reading : HttpRequest
reading = asking (codes "GET") zones []

reading_allowed : (ReadZones.authorize reading).decision ≡ allows
unfolding ReadZones.authorize text_eq
reading_allowed = refl

abbrev notifying : HttpRequest
notifying = asking (codes "PUT") (codes "/api/v1/servers/s/zones/z/notify") []

abbrev writing : HttpRequest
writing = asking (codes "PUT") (codes "/api/v1/servers/s/zones/notify") []

zone_named_notify_example : (ZoneNotify.authorize writing).decision ≡ allows
unfolding contains_byte
zone_named_notify_example = zone_named_notify writing (codes "s") refl refl refl

abbrev services : Services
services = record {
  unmarshal = λ body. some (
      record { name = codes "_acme-challenge.a"; type = codes "TXT"; change_type = codes "REPLACE" }
      ∷ []);
  lookup_host = λ fqdn. some (codes "1" ∷ []);
  lookup_cname = λ fqdn. none;
}

abbrev patching : HttpRequest
patching = asking (codes "PATCH") (codes "/api/v1/servers/s/zones/z") []

challenger_iff_example : (Challenger.authorize services patching).decision ≡ allows
unfolding resolvable trim_prefix has_prefix split
challenger_iff_example = (challenger_iff services patching).1 (
  refl,
  (codes "s", codes "z", refl),
  (
    record { name = codes "_acme-challenge.a"; type = codes "TXT"; change_type = codes "REPLACE" }
        ∷ [],
    refl,
    (λ e. cc),
    ((refl, (codes "a", refl, refl)), tt),
  ),
)
