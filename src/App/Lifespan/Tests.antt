-- ===== src/App/Lifespan/Tests.antt =====
-- The end of a gateway with one server.
use mcp_gateway_python.Prelude.{none, some, [], ◌≡◌, refl, true, All, length, drop, take, ◌++◌}
use mcp_gateway_python.Json.{no_fields}
use mcp_gateway_python.Audit.Store.{batch_size}
use mcp_gateway_python.Orchestrator.Call.{call_tool}
use mcp_gateway_python.Orchestrator.Overlap.{Call}
use mcp_gateway_python.App.Lifespan.{Life, sweep, shutdown, IsUnserved, shutdown-ends}
use mcp_gateway_python.Audit.Tests.{full}
use mcp_gateway_python.App.Tests.{environ, world, clock, ops, running}

-- More than a batch of records waits.
abbrev alive : Life
alive = record {
  app = record running { gateway = record running.gateway { audit = some full } };
  sweeping = true;
  closed = [];
}

abbrev asks : Call
asks = record {
  clock = clock;
  principal = ops;
  request_id = "r1";
  name = "pg.sql";
  arguments = no_fields;
  server_id = none;
}

audited : alive.app.gateway.audit ≡ some full
audited = refl

shutdown-ends_example :
    All (λ c. c.session ≡ none) (shutdown true alive).closed
    × (length (shutdown true alive).closed ≡ length running.clients)
    × (sweep environ [] (shutdown true alive) ≡ shutdown true alive)
    × IsUnserved
        (call_tool world clock ops "r1" "pg.sql" no_fields none (shutdown true alive).app.gateway).0
    × ((call_tool world clock ops "r1" "pg.sql" no_fields none (shutdown true alive).app.gateway).1
        ≡ (shutdown true alive).app.gateway)
    × ((shutdown true alive).app.gateway.audit
        ≡ some (record {
          queue = drop batch_size full.queue;
          rows = [] ++ take batch_size full.queue;
        }))
shutdown-ends_example = shutdown-ends environ [] world asks full alive audited
