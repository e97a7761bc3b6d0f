-- ===== src/Orchestrator/Listed/Tests.antt =====
-- A listed tool of two registered servers.
use mcp_gateway_python.Orchestrator.Tests.{gateway}
use mcp_gateway_python.Orchestrator.Gateway.{Gateway}
use mcp_gateway_python.Json.{no_fields}
use mcp_gateway_python.Orchestrator.Listed.{fresh}
use mcp_gateway_python.Registry.Invariant.{
  run_ops, Op, register_op, sync_op, answer_op, set_enabled_op, update_op,
}
use mcp_gateway_python.Registry.Naming.{RawTool, listed}
use mcp_gateway_python.Registry.Servers.{NamingConfig, ToolDefinition, bare, UpstreamServer, warn}
use mcp_gateway_python.Prelude.{none, true, false, ◌∷◌, [], List, String}

abbrev server : String → UpstreamServer
server id = record {
  id = id;
  name = id;
  base_url = "http://up";
  transport = "http";
  auth_header = none;
  auth_token = none;
  server_auth = none;
  tags = [];
  enabled = true;
  tool_prefix = none;
  mutable_tools = "write" ∷ [];
}

abbrev raw_tool : String → RawTool
raw_tool n = record { name = n; description = none; input_schema = no_fields }

abbrev naming : NamingConfig
naming = record { strategy = bare; on_conflict = warn }

-- Both servers list `write`: the first one keeps the name. The answer of the second one arrives after
-- the first one has been switched off and on. Then a reload makes
-- `rate` a mutable tool, and the definition that is listed does not say so.
abbrev ops : List Op
ops =
    register_op (server "pg")
    ∷ register_op (server "fx")
    ∷ sync_op "pg" (listed (raw_tool "write" ∷ [])) 5
    ∷ set_enabled_op "pg" false
    ∷ set_enabled_op "pg" true
    ∷ answer_op "fx" (listed (raw_tool "write" ∷ raw_tool "rate" ∷ [])) 6
    ∷ update_op (record (server "fx") { mutable_tools = "rate" ∷ [] })
    ∷ []

abbrev rate : ToolDefinition
rate = record {
  name = "rate";
  description = none;
  input_schema = no_fields;
  server_id = "fx";
  qualified_name = "rate";
  mutable_tool = false;
  tags = [];
}

-- A gateway with that registry, called by the listed name.
abbrev serving : Gateway
serving = record gateway { registry = run_ops ops (fresh naming) }
