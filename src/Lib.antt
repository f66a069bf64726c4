-- ===== src/Lib.antt =====
-- Verification of gslb, a DNS load balancer: it probes backends, stores what the probes say about
-- their health, and publishes the addresses of the healthy ones in DNS.
--
-- The parts and how they interact. The scheduler asks the engine for a probe of every enabled
-- backend on each tick, and stores what a result does to the health of its backend, after the
-- aggregator has counted it. The reconciler reads backends and health from the store, chooses the
-- backends of a config, and calls the DNS provider where the addresses differ from those that it
-- remembers. The HTTP API changes the store; in front of it stand the rate limiter and the
-- middlewares that check sessions and roles.
--
-- The files, and the code that each one models:
--   Types, Result     internal/types/*.go; Go errors, and actions with a state and an error
--   Store             internal/store/store.go: the interfaces, records of operations over any state
--   Store/Sql         a database of tables that may refuse a statement
--   Store/Rows, Store/Tables
--                     internal/db/migrations.go: rows, keys, constraints and cascades
--   Store/Configs, Store/Backends, Store/Checks, Store/Providers, Store/History, Store/Audit
--                     internal/store/config.go, backend.go, health.go, dns_provider.go,
--                     health_history.go, audit.go: the statements on those tables
--   Store/Calls       the store of these statements, and any sequence of its calls;
--                     Store/Calls/ConfigMap has the map of configs that the table implements
--   Store/Sessions    internal/store/session.go: the statements on the table of sessions
--   Store/Access      internal/store/user.go: the statements on the tables of roles
--   Store/Users       internal/store/user.go: those on the table of users, beside the former
--   Health/StateMachine, Health/Aggregator, Health/Scheduler
--                     internal/health/state.go, aggregator.go, scheduler.go and checker.go;
--                     Health/Scheduler/Life has Start, Stop and the loops
--   Health/Engine     internal/health/engine.go: the workers and channels, as the steps of goroutines
--   Dns/Provider, Dns/Mock, Dns/Cloudflare
--                     internal/dns/provider.go, mock.go, cloudflare.go
--   Dns/Ips, Dns/Reconciler
--                     internal/dns/reconciler.go
--   Lb                internal/lb/selector.go
--   Auth/Oidc, Auth/Middleware
--                     internal/auth/oidc.go (the check of a session, users, roles), middleware.go
--   Auth/Tokens       internal/auth/oidc.go: the ID token of the provider and the token of a session
--   Handlers/Login    internal/handlers/auth.go: Login and Callback
--   Handlers/Api, Handlers/Configs, Handlers/Backends, Handlers/Checks, Handlers/Providers
--                     internal/handlers/handlers.go, config.go and config_roles.go, backend.go,
--                     health.go, dns.go
--   Handlers/Status, Handlers/History, Handlers/AuditLogs
--                     internal/handlers/status.go, history.go, audit.go
--   Handlers/Users    internal/handlers/auth.go: the users and their roles
--   Handlers/Site     these handlers over the SQL store, and the requests that change something
--   Handlers/Routes   internal/handlers/routes.go: the routes and their middlewares
--   Handlers/RateLimiter, Handlers/Logout
--                     internal/handlers/routes.go, auth.go; Handlers/Logout/Served has the logout
--                     through its route
--   Crypto            internal/crypto/crypto.go
--   Settings          internal/config/config.go
--   Prelude           lists, integers, texts and maps that the other files share
--   Examples          a small world, and the theorems at concrete inputs
-- The children of a component prove its theorems and are named for what they prove.
--
-- How the model corresponds to the code. A function keeps its name in snake case. A method that
-- writes through its receiver takes and returns the record of the receiver; a call of the store or
-- of a provider takes and returns the state `W` of the world, so that the order of the calls is that
-- of the code. `Exec S A` is an action on a state that returns a value or an error; what it changed
-- before an error stays changed. A mutex makes a method atomic, and a goroutine's loop is a function
-- of the list of events that it receives. `time.Now` is an argument.
--
-- Bounds. An `int` is an integer with `inc_int` wrapping at 2^63; a `uint64` is a natural number
-- below `word`, 2^64, with the wrap-around written out. `decimal` makes at most twenty rounds, which
-- is enough for every number below 10^20. Every loop of the modelled code runs over a list, and the
-- model recurses on that list.
--
-- The libraries are parameters: `CryptoLib` (ciphers, base64), `Platform` (files, environment, YAML),
-- `Driver` (the texts of SQLite's refusals), `CloudflareApi`, `AuthLib` (OAuth2, OIDC, JWT),
-- `FloatLib` (float64). The tables of the configs, of the users, of the sessions and of the audit log
-- are apart in the model; a database is its rows and the refusals to come, so that a theorem about
-- every list of refusals is about every I/O error.
--
-- Not modelled: the probes themselves (internal/health/tcp.go, icmp.go); the ticker of
-- CheckScheduler.Run and the merging of the results of several engines; the discovery of the OIDC
-- provider; what gin does with a request before a handler has its body; the transactions, which no
-- code uses; logging, the execution of the migrations, and the embedded web pages.
pub mod Auth
pub mod Crypto
pub mod Dns
pub mod Examples
pub mod Handlers
pub mod Health
pub mod Lb
pub mod Prelude
pub mod Result
pub mod Settings
pub mod Store
pub mod Types
