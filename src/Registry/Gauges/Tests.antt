-- ===== src/Registry/Gauges/Tests.antt =====
-- The gauges on short runs.
use mcp_gateway_python.Registry.Gauges.Exact.{IsExact, run_metered-IsExact}
use mcp_gateway_python.Prelude.{String, List, none, [], ◌∷◌, ◌≡◌, refl, true, false, lookup, insert}
use mcp_gateway_python.Json.{no_fields}
use mcp_gateway_python.Registry.Servers.{
  UpstreamServer, prefix_always, warn, register, set_enabled, prefix_of,
}
use mcp_gateway_python.Registry.Naming.{
  listed, sync_one, synced, build_tool_definitions, build, qualified_by, settle, define_tool,
  claims_of_others,
}
use mcp_gateway_python.Registry.Invariant.{Op, register_op, deregister_op, set_enabled_op, sync_op}
use mcp_gateway_python.Registry.Gauges.{
  Metered, run_metered, metered, count_servers, recompute_tool_count, total,
}

abbrev server : String → UpstreamServer
server id = record {
  id = id;
  name = id;
  base_url = "http://up";
  transport = "http";
  auth_header = none;
  auth_token = none;
  server_auth = none;
  tags = [];
  enabled = true;
  tool_prefix = none;
  mutable_tools = [];
}

abbrev nothing : Metered
nothing = record {
  registry = record {
    entries = [];
    naming = record { strategy = prefix_always; on_conflict = warn };
  };
  gauges = record { registered_servers = 0; registered_tools = 0 };
}

abbrev ops : List Op
ops =
    register_op (server "pg")
    ∷ sync_op "pg"
        (listed (record { name = "sql"; description = none; input_schema = no_fields } ∷ [])) 5
    ∷ register_op (server "fx")
    ∷ deregister_op "pg"
    ∷ []

run_metered-IsExact_example : IsExact (run_metered ops nothing)
unfolding total metered count_servers recompute_tool_count register sync_one synced
    build_tool_definitions build qualified_by settle define_tool claims_of_others lookup insert
    prefix_of
run_metered-IsExact_example = run_metered-IsExact ops nothing (refl, (refl, tt)) (refl, refl)

-- A server that is switched off takes its tools out of the manifest, and the gauge still counts them.
abbrev switched : Metered
switched =
    run_metered
      (register_op (server "pg")
        ∷ sync_op "pg"
            (listed (record { name = "sql"; description = none; input_schema = no_fields } ∷ [])) 5
        ∷ set_enabled_op "pg" false
        ∷ [])
      nothing

stays : (switched.gauges.registered_tools ≡ 1) × (total switched.registry.entries ≡ 0)
unfolding run_metered total metered count_servers recompute_tool_count register set_enabled sync_one
    synced build_tool_definitions build qualified_by settle define_tool claims_of_others lookup
    insert prefix_of
stays = (refl, refl)
