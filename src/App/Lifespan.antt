-- ===== src/App/Lifespan.antt =====
-- `lifespan`, `_health_sweep` and `close` of the registry: the application from its start to its
-- shutdown. The HTTP clients of the registry and of the dispatcher, which are closed too, are outside.
mod Tests
use mcp_gateway_python.Registry.Servers.{get, ServerRegistry}
use mcp_gateway_python.Orchestrator.Call.{call_tool}
use mcp_gateway_python.Orchestrator.Overlap.{Call}
use mcp_gateway_python.Registry.Lookup.{
  find_by_qualified_tool, exact, by_prefix, bare_matches, the_only,
}
use mcp_gateway_python.Orchestrator.Steps.{resolve, resolve_at}
use mcp_gateway_python.Audit.Order.{flush_lem}
use mcp_gateway_python.App.Config.{GatewayConfig}
use mcp_gateway_python.Audit.Store.{AuditStore, stop, batch_size}
use mcp_gateway_python.Orchestrator.Gateway.{
  Failure, CallError, ToolCallResult, World, orchestration_error, uncaught, Gateway,
  unresolved_tool, unknown_server,
}
use mcp_gateway_python.App.State.{App, Visit, set_registry, sync_all, start}
use mcp_gateway_python.Client.Session.{reset_session, McpClient}
use mcp_gateway_python.Credentials.Expand.{Environ}
use mcp_gateway_python.Prelude.{
  refl, none, some, true, false, ltb, map, ◌≡◌, Bool, Result, map_option, String, List, ok, All,
  if◌then◌else◌, values, err, ◌∷◌, ℕ, [], drop, length, Dict, arith, ap, suc, ◌++◌, take, ◌∙◌,
  lookup, Option,
}

-- The application with its background task, and the clients that have been closed at its end.
pub record Life : Type 0 where
  pub app : App
  pub sweeping : Bool
  pub closed : List McpClient

-- The start: the sweep runs if its interval is not 0.
unfoldable pub enter : Environ → (String → Visit) → AuditStore → GatewayConfig → ℕ → Life
enter environ visits audit cfg interval = record {
  app = start environ visits audit cfg;
  sweeping = ltb 0 interval;
  closed = [];
}

-- A round of `_health_sweep`, while the task runs.
unfoldable pub sweep : Environ → List (String × Visit) → Life → Life
sweep environ visits l = if l.sweeping then record l { app = sync_all environ visits l.app } else l

-- `close` of the registry: each client is closed, and the entries are dropped.
unfoldable pub close_registry : App → List McpClient × App
close_registry a = (
  map reset_session (values a.clients),
  set_registry (record a.gateway.registry { entries = [] }) (record a { clients = [] }),
)

-- `audit.stop()`
unfoldable pub stop_audit : Bool → App → App
stop_audit committed a = record a {
  gateway = record a.gateway { audit = map_option (stop committed) a.gateway.audit };
}

-- The shutdown: the sweep is cancelled, then the registry is closed, then the audit store stopped.
unfoldable pub shutdown : Bool → Life → Life
unfolding close_registry stop_audit
shutdown committed l =
    let (closed, a) = close_registry l.app in
    record { app = stop_audit committed a; sweeping = false; closed = closed }

All-reset_session : (cs : List McpClient) → All (λ c. c.session ≡ none) (map reset_session cs)
unfolding reset_session
All-reset_session [] = tt
All-reset_session (c ∷ cs) = (refl, All-reset_session cs)

-- What a call meets on a registry without entries.
abbrev pub IsUnserved : Result CallError ToolCallResult → Type 0
IsUnserved (ok r) = ⊥
IsUnserved (err (orchestration_error f code)) = code ≡ 404
IsUnserved (err (uncaught f)) = ⊥

resolve-empty :
    (name : String) (server_id : Option String) (r : ServerRegistry)
    → r.entries ≡ []
    → (f : Failure) × (resolve name server_id r ≡ err (orchestration_error f 404))
unfolding resolve resolve_at get lookup find_by_qualified_tool exact by_prefix bare_matches the_only
resolve-empty name none r h = (unresolved_tool name, ground arith)
resolve-empty name (some sid) r h = (unknown_server sid, ground arith)

call_tool-empty :
    (w : World) (q : Call) (g : Gateway)
    → g.registry.entries ≡ []
    → IsUnserved (call_tool w q.clock q.principal q.request_id q.name q.arguments q.server_id g).0
      × ((call_tool w q.clock q.principal q.request_id q.name q.arguments q.server_id g).1 ≡ g)
unfolding call_tool
call_tool-empty w q g h =
    let (f, missing) = resolve-empty q.name q.server_id g.registry h in
    let at : call_tool w q.clock q.principal q.request_id q.name q.arguments q.server_id g
        ≡ (err (orchestration_error f 404), g) =
      ground arith in
    rw at (refl, refl)

length-values : (d : Dict McpClient) → length (map reset_session (values d)) ≡ length d
length-values [] = refl
length-values ((k, c) ∷ d) = ap suc (length-values d)

stop-rows :
    (s : AuditStore)
    → stop true s
      ≡ record { queue = drop batch_size s.queue; rows = s.rows ++ take batch_size s.queue }
unfolding stop
stop-rows s = let (queued, stored) = flush_lem true s in cc (queued, stored)

-- After a shutdown with an audit store whose last commit succeeds: the session of each client is
-- closed, no sweep changes anything, each call ends with 404 and changes nothing, so that it sends
-- nothing either, and the audit store has written at most one more batch: what waits behind it is
-- lost.
pub shutdown-ends :
    (environ : Environ) (visits : List (String × Visit)) (w : World) (q : Call) (s : AuditStore)
    (l : Life)
    → l.app.gateway.audit ≡ some s
    → All (λ c. c.session ≡ none) (shutdown true l).closed
      × (length (shutdown true l).closed ≡ length l.app.clients)
      × (sweep environ visits (shutdown true l) ≡ shutdown true l)
      × IsUnserved
          (call_tool w q.clock q.principal q.request_id q.name q.arguments q.server_id
            (shutdown true l).app.gateway).0
      × ((call_tool w q.clock q.principal q.request_id q.name q.arguments q.server_id
            (shutdown true l).app.gateway).1
          ≡ (shutdown true l).app.gateway)
      × ((shutdown true l).app.gateway.audit
          ≡ some (record {
            queue = drop batch_size s.queue;
            rows = s.rows ++ take batch_size s.queue;
          }))
unfolding shutdown close_registry stop_audit sweep
shutdown-ends environ visits w q s l h =
    let (unserved, still) = call_tool-empty w q (shutdown true l).app.gateway refl in
    (
      All-reset_session (values l.app.clients),
      length-values l.app.clients,
      refl,
      unserved,
      still,
      ap (map_option (stop true)) h ∙ ap some (stop-rows s),
    )
