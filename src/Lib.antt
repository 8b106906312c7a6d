-- ===== src/Lib.antt =====
-- A model of the Go service of this repository: what its modules `authentication`, `authorization`,
-- `tenant`, `user` and `todo` do to their tables, what their HTTP handlers answer, what the shared
-- middleware lets through and records, how the shared buses deliver, and what the program starts
-- with.
--
-- The parts and their files:
--   Prelude: names of the libraries, tests on numbers, lists as tables.
--   Core/Errors, Core/Entity: internal/core/domain (errors.go, entity.go, aggregate.go).
--   Core/Proc, Core/Runtime: a Go function that changes shared state and may return an error is a
--     function from a state to a result and a state. What was written before an error stays
--     written, unless a transaction rolls it back. `Env` holds what the code takes from outside:
--     the clock, the random source, fresh identifiers, and a database that may refuse any call.
--     Each call has a number, so that every clock and every pattern of failures is covered;
--     `reliable` is the same environment with a database that answers every call. Runtime/Ends has
--     the rules by which a run that returns no error determines its end state.
--   Cursor: internal/shared/cursor. Listing: the listing with cursors and limits that the
--     repositories of todos, roles, permissions, tenants and users write out each for its own table;
--     a table has it through an instance of `Keyed`.
--   Auth: internal/authentication. Entity (domain/entity, domain/event), Tables (the tables of
--     migrations 003 and 008 with the statements), UserRepository and RefreshTokenRepository
--     (infrastructure/persistence), Commands and Sessions (application/command and
--     application/query; `refresh` is RefreshTokenHandler.Handle), Handlers (interfaces/http).
--     Sessions/Redeemed follows one-time tokens from registration and reset to a login.
--     Trace runs any list of requests one after the other; Stable has the rules by which a fact
--     about the tables is kept by all of them.
--   Authz: internal/authorization. Entity, Tables (the tables with sqlc/queries.sql.go),
--     Repositories, Commands and Handlers as above; Casbin is infrastructure/casbin/adapter.go and
--     Policy is sync.go and enforcer.go there. The casbin library is a record of functions, with
--     what is used of its model in `Allows`; `Agrees` says that the rules in casbin_rule and
--     the enforcer's decisions are those of the tables of roles and permissions.
--   Tenant, User, Todo: internal/tenant, internal/user and internal/todo, laid out in the same way.
--   Shared: Events and Delivery (internal/shared/events and the mail handler of authentication),
--     Nats (events/nats_event_bus.go; `on_message` is the callback of startSubscription), Cqrs
--     (internal/shared/cqrs), Pagination (internal/shared/pagination and todo_filters.go), Config
--     (internal/shared/config: Overrides is applyEnvOverrides, Defaults is setDefaults, Startup is
--     New). A payload on a bus is a struct or a pointer to one, which is `Carried` of Events.
--   Http: internal/shared/utils and internal/shared/middleware; Requests has the checks of requests
--     that the handlers share, Formatter is middleware/formatter.go, Recording is audit.go with the
--     recording half of middleware.go and internal/shared/auditlog, Metrics is metrics.go with the
--     recorder of internal/monitoring. Routes has the routes of internal/shared/router and of each
--     module's interfaces/http/routes.go, with the middleware before each, the idempotency
--     keys of /auth included.
--   Infrastructure: internal/infrastructure, of which Debug is messaging/debug.go and Jwt is
--     auth/jwt.go.
--   Examples: runs at concrete inputs.
--
-- How they interact: a handler of a Handlers module checks its request, calls a command or query,
-- and turns its result into a response of Http/Response; a command calls the repositories, which
-- run statements on the tables, and publishes events; the commands of authorization reload the
-- policies of the enforcer. Requests are sequential: two of them never interleave within a command.
--
-- Numbers: times and durations are nanoseconds in ℕ, identifiers are ℕ; the values of the
-- configuration are ℤ. What a TIMESTAMPTZ column keeps of a time is `timestamptz` of `Env`, in the
-- tables of todos and tenants; in the other tables a time is kept as it is. Two functions are on
-- fuel: a walk over pages, for which one more than the number of listed rows is enough, and the
-- reversal in the debug buffer, for which the length of the list is enough: their theorems show it.
-- Where a query has no ORDER BY, its rows come in the order of the table.
--
-- Not modelled: the middleware of headers, body sizes, logging, tracing, CORS and time-outs, the
-- cache of todos, Handler.Me of the user module, dependency injection, the adapters for Redis, the
-- NATS client, mail and logging, and the matching of paths by chi: they are calls of libraries or
-- wiring. That JetStream delivers a refused message again is not modelled either. bcrypt, SHA-256,
-- the JWT library, JSON, base64, ILIKE, uuid.Parse, strconv, koanf, JetStream, casbin and
-- the mailer are parameters.
pub mod Prelude
pub mod Core
pub mod Auth
pub mod Cursor
pub mod Listing
pub mod Authz
pub mod Tenant
pub mod User
pub mod Shared
pub mod Todo
pub mod Http
pub mod Infrastructure
mod Examples
