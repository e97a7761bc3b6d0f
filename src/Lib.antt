-- ===== src/Lib.antt =====
-- A model of the MCP gateway: a service that gives agents the tools of many upstream MCP servers
-- under one name space, and lets a call through only after authorization, rate limits, guardrails
-- and schema validation, with redaction, caching, audit and webhooks around it.
--
-- The parts, the source each one models, and its file here:
-- * Orchestrator (app/orchestrator/orchestrator.py, app/models/mcp.py): Orchestrator/Gateway holds
--   the state of all components and the parameters, Orchestrator/Steps the steps of `call_tool`,
--   each a function from the state to a result and the state after it, and Orchestrator/Call
--   composes them to `call_tool` and `build_manifest`. Orchestrator/Overlap models calls that
--   overlap: `call_tool` in two parts, and a step relation between states with pending calls.
--   Orchestrator/Checks, Safety, Returns, Repeat, Manifest, Routing, Listed and the children of
--   Overlap hold the proofs.
-- * Registry (app/registry/registry.py): Registry/Servers (`register`, `deregister`, `set_enabled`),
--   Registry/Naming (`_build_tool_definitions`, `sync_one`), Registry/Lookup
--   (`find_by_qualified_tool`, `list_conflicts`), Registry/Gauges (the gauges of
--   app/observability/metrics.py); Registry/Invariant has the runs of operations, and Registry/Claims,
--   Conflicts, Resolution, Tidy, Callable and Gauges/Exact hold the proofs.
-- * Breaker (app/transport/circuit_breaker.py): the breaker, and Breaker/Pool its registry.
-- * Auth (app/middleware/auth.py, app/middleware/oidc.py): Auth/Oidc and Auth/Authorizer.
-- * RateLimit (app/middleware/ratelimit.py): RateLimit/Bucket and RateLimit/Limiter.
-- * Guardrails (app/guardrails/safety.py), Schema (app/guardrails/schema_validator.py) and Redaction
--   (app/middleware/redaction.py).
-- * Cache (app/cache/tool_cache.py): Cache/Store is the TTL store, Cache/Tools the tool cache.
-- * Audit (app/audit/store.py, app/audit/models.py): Audit/Store is the queue and the batches,
--   Audit/Query the statement that `query` builds. Audit/Order, Sorting and Pages hold the proofs,
--   and Audit/Memory a table that meets their hypothesis on the database.
-- * Webhooks (app/webhooks/dispatcher.py): Webhooks/Dispatcher, Webhooks/Headers for the headers and
--   the signature of a delivery, and Webhooks/Ids for the ids of events.
-- * Credentials (app/transport/auth_provider.py): Credentials/Settings is the configuration,
--   Credentials/Expand the variables in a token (`_resolve_env`), Credentials/Provider the three
--   providers. Credentials/Template and Freshness hold the proofs.
-- * Client (app/transport/mcp_client.py): Client/Content (`_extract_content`, `_tool_to_dict`),
--   Client/Session (headers and the life of a session), Client/Calls (`call_tool`, `list_tools`,
--   `ping`, with the breaker and the retries), Client/Sharing (the one session of calls that
--   overlap). Client/Attempts, Breaking, Outage, Wire, Headers and Requests hold the proofs. A
--   client keeps a list of what it did, for the proofs only.
-- * App (app/main.py, app/admin/reload.py, app/config.py): App/Config is the configuration and its
--   validator, App/State the whole application, with the clients and the breakers of the registry's
--   entries, and its start, App/Defaults the defaults of the configuration and its loading,
--   App/Lifespan the health sweep and the shutdown, App/Reload the reload, and App/Calls a tool call
--   through a client. App/Servers, Updates, Policies, Clients and Reach hold the proofs.
-- * Api (app/api): Api/Http (dependencies.py), Api/Calls, Api/Health and Api/Servers (routes.py),
--   Api/AuditLog and Api/Views (the routes that show the state), Api/Context (middleware.py);
--   Api/Access holds the proofs about the routes of tool calls.
-- * Observability (app/observability/logging.py): the context variables and what they add to a line.
-- Json is the JSON values that all of them pass on; Prelude holds the shared helpers.
--
-- Conventions. Objects are records, and a method takes its object and returns the object after it;
-- an exception is a value of a result type, and the state that was written before it stays. Each
-- reading of the clock is an argument: milliseconds, or seconds where only the order counts. Tokens
-- of the rate limiter are counted in millionths, and a rate of r tokens per second is 1000 r
-- millionths per millisecond; floating-point rounding is not modelled. Methods run on one
-- event loop, so that each is one step up to its await, and interleavings are sequences of such
-- steps: calls that overlap are in Orchestrator/Overlap and, on the session of one client, in
-- Client/Sharing, syncs that overlap other operations in Registry/Invariant, records and flushes in
-- Audit/Store; the other components take a call as one step. All recursion is structural; the retry
-- loops of a delivery and of a client's call recurse on the number of attempts that are left.
--
-- Taken as parameters: regular expressions, the lower case of a text, the JSON schema library, the
-- JOSE library, presidio, digests, the environment, the token endpoint, the connections and answers
-- of the upstream servers, HTTP replies, and commits and selects of the database. The orchestrator
-- takes the upstream servers as a parameter; App/Calls gives it the clients for them. Not modelled:
-- parsing of YAML and of the environment, the scheduling of background tasks, the histograms and the
-- counters that nothing reads, the wiring of FastAPI, and the configuration of the logs: they are
-- traffic with the outside, or only pass on what the modelled parts compute.
pub mod Prelude
pub mod Breaker
pub mod Json
pub mod Credentials
pub mod Client
pub mod App
pub mod Api
pub mod Cache
pub mod RateLimit
pub mod Auth
pub mod Guardrails
pub mod Schema
pub mod Redaction
pub mod Audit
pub mod Webhooks
pub mod Registry
pub mod Orchestrator
pub mod Observability
