-- ===== src/Plugins/ApiDiscovery.antt =====
-- plugins/api_discovery/main.go
use pdag.Common.{◌&&◌, codes, text_eq, ◌++◌, if◌then◌else◌}
use pdag.Authz.{HttpRequest}
use pdag.Plugins.{AuthorizeResponse, allow, deny}

unfoldable pub authorize : HttpRequest → AuthorizeResponse
authorize req =
    if text_eq req.method (codes "GET") && text_eq req.path (codes "/api")
    then allow (codes "api_discovery: version discovery")
    else deny
        (codes "api_discovery: only GET /api allowed, got " ++ req.method ++ codes " " ++ req.path)
