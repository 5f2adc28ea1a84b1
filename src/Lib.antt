-- ===== src/Lib.antt =====
-- pdag, an authorizing gateway in front of the HTTP API of PowerDNS: models of its parts, and what makes
-- them correct.
--
-- A request goes through a chain of middlewares: it is audited, authenticated by an API key, limited in its
-- rate, read into memory, authorized by plugins, and then proxied to a backend. An admin API manages the keys.
-- The files, with paths from the repository's root:
--   Authn      internal/authn/hmac: middleware.go is `serve_http`, of which `answer` is what follows the call
--              of GetByID, `after_secret` what follows Authenticate, `check_key` and `check_source` the
--              checks of the key; hmac.go is `authenticate`, `verify` and `dummy_verify`. It asks ClientIp
--              for the address, and reads the records of Store.
--   ClientIp   internal/clientip/clientip.go: `new`, `client_ip` with the loop `walk`.
--   RateLimit  internal/ratelimit/token/limiter.go: `allow`, `cleanup`; ratelimit/middleware.go: `middleware`.
--   BodyBuffer internal/middleware/bodybuffer.go: `body_buffer`.
--   Authz      internal/authz/middleware.go: `serve_http`, which calls an authorizer such as Manager's
--              `authorize`; sdk/convert.go: `stdlib_to_http_request`, `http_request_to_stdlib`.
--   Manager    internal/authz/plugin/manager.go: `authorize`, `call_plugin`, `healthy`; Manager/Restarts has
--              restartPlugin, swapPlugin and Close as events. Each call asks the plugin's Breaker.
--   Breaker    internal/authz/plugin/circuitbreaker.go: `allow`, `record_success`, `record_failure`.
--   Balancer   internal/proxy/balancer: balancer.go is `serve_http`, with `serve_from` for its loop and
--              `error_handler`; health.go is in Balancer/Health.
--   Proxy      the Rewrite functions of internal/proxy/balancer and internal/proxy/single; Header is the
--              http.Header that they work on.
--   HttpRoute  internal/httproute/normalize.go: `normalize`.
--   Store      internal/store/memory/memory.go: each method under its name, on the map as an argument.
--   PgArray    internal/store/postgres/pgarray.go: `scan`, `value`.
--   Postgres   internal/store/postgres/postgres.go: `get_by_id`, `create`, `list`, `set_enabled`, `delete`, with a
--              function of the Database for each statement.
--   Pipeline   cmd/pdag/serve.go: the handler of newProxyServer is `proxy_handler`, over the middlewares of
--              internal/middleware/chain.go and requestid.go, internal/metrics/middleware.go (`metrics`),
--              internal/audit/middleware.go (`audit`, `build_entry`), and those of Authn, RateLimit, BodyBuffer
--              and Authz, which it calls; Context is internal/middleware/context.go.
--   Audit      internal/audit/body.go: `sanitize_body`, `redact_value`.
--   Admin      internal/admin: the handlers of server.go are in Admin/Handlers, each under its name, its routes
--              and guards in Admin/Server (`handler`, `check_token`, `serve_http`), and hmac/keygen.go in
--              Admin/Keygen. They work on Store and hand out what Authn accepts.
--   Config     internal/config/config.go: `validate` with the checks of Config/Checks, `resolve_secret_files`,
--              `plugin_config_resolved`; of cmd/pdag/serve.go the map of HMAC secrets, `add_secrets`.
--   Plugins    plugins/*/main.go: an `authorize` for each plugin.
--   Command    cmd/pdag/key.go: each command of `pdag key` under its name, on Postgres, with what the process meets
--              outside the program in a Call.
--   Server     cmd/pdag/serve.go: `readiness_check`, and a tick of runKeyCleanup in `clean_up`.
--   AuditLog   internal/audit/file/logger.go: `publish`, `reserve`, `commit`, and the flush loop's turns in
--              `step`, with the Entry of internal/audit/audit.go.
--   Common     tests, lists, integers, texts and maps that all parts share.
--
-- State is passed explicitly: an operation takes the state of its part and returns the new one, and
-- operations under one lock are one step. What runs at the same time is a list of such steps, over all
-- lists. In Manager a call of a plugin is one step; its clock readings are its own. Strings are lists of
-- bytes, times are numbers of nanoseconds, and a clock reading is an argument. The fixed bounds are those of
-- the code: five rounds of restart, two attempts of the balancer, counters of 64 bits; loops are recursion
-- on a list or on the number of turns that are left, so that no fuel is needed.
--
-- Parameters stand for code outside the repository and for the network: HMAC and hexadecimal digits
-- (Authn.Crypto), addresses and networks (ClientIp.Net), what a backend, a health check or a plugin answers.
-- The statements of PostgreSQL are functions of a Postgres.Database, and `Keeps` is what is relied on of it:
-- an inserted row can be selected, and its arrays are read like the literals that were written. Unicode's case
-- tables are a parameter (Audit.Encoding), its spaces are written out.
-- What viper, net/http, encoding/json, strconv, DNS and regular expressions do is outside too: routes, decoded
-- bodies and lookups are arguments. An error of the database that the store cannot have is a condition of the
-- request (Admin.Conditions).
-- Not modelled: the SQL of internal/store/postgres/postgres.go, the rounding of float64 in the rate limiter, the
-- loading through viper, the switch of the commands, process signals, tracing, logging, the benchmarks, and the
-- generated protocol code.
pub mod Admin
pub mod Audit
pub mod AuditLog
pub mod Authn
pub mod Authz
pub mod Balancer
pub mod BodyBuffer
pub mod Breaker
pub mod ClientIp
pub mod Command
pub mod Common
pub mod Config
pub mod Context
pub mod Header
pub mod HttpRoute
pub mod Manager
pub mod PgArray
pub mod Pipeline
pub mod Plugins
pub mod Postgres
pub mod Proxy
pub mod RateLimit
pub mod Server
pub mod Store
