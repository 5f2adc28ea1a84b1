-- ===== src/Plugins/Admin.antt =====
-- plugins/admin/main.go
use pdag.Common.{codes}
use pdag.Authz.{HttpRequest}
use pdag.Plugins.{AuthorizeResponse, allow}

abbrev pub authorize : HttpRequest → AuthorizeResponse
authorize req = allow (codes "admin: full access")
