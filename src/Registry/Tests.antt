-- ===== src/Registry/Tests.antt =====
-- Runs of the registry, and its theorems at inputs that meet their hypotheses.
use mcp_gateway_python.Prelude.{
  String, List, IsDistinct, All, lookup, insert, Result, err, ◌≡◌, ◌∷◌, [], true, false, none, some,
  ok, refl, inl,
}
use mcp_gateway_python.Json.{no_fields}
use mcp_gateway_python.Registry.Servers.{
  ToolDefinition, prefix_of, UpstreamServer, ServerRegistry, RegistryEntry, prefix_always, bare,
  warn, suffix, register,
}
use mcp_gateway_python.Registry.Invariant.{register_op, sync_op, step, run_ops}
use mcp_gateway_python.Registry.Claims.{names, owned_by_other, build-IsDistinct}
use mcp_gateway_python.Registry.Naming.{
  build, qualified_by, settle, define_tool, claims_of_others, sync_one, synced, ToolNameConflict,
  RawTool, build_tool_definitions, listed,
}

abbrev server : String → UpstreamServer
server id = record {
  id = id;
  name = id;
  base_url = "http://up";
  transport = "http";
  auth_header = none;
  auth_token = none;
  server_auth = none;
  tags = [];
  enabled = true;
  tool_prefix = none;
  mutable_tools = [];
}

abbrev raw_tool : String → RawTool
raw_tool n = record { name = n; description = none; input_schema = no_fields }

abbrev two_servers : ServerRegistry
two_servers = record {
  entries = [];
  naming = record { strategy = prefix_always; on_conflict = warn };
}

abbrev fx_entry : RegistryEntry
fx_entry = record {
  server = server "fx";
  tools =
      record {
        name = "rate";
        description = none;
        input_schema = no_fields;
        server_id = "fx";
        qualified_name = "fx.rate";
        mutable_tool = false;
        tags = [];
      }
      ∷ [];
  last_synced = some 5;
  last_error = none;
  healthy = true;
}

abbrev synced_registry : ServerRegistry
synced_registry = record two_servers { entries = ("fx", fx_entry) ∷ [] }

syncs :
    run_ops
      (register_op (server "fx") ∷ sync_op "fx" (listed (raw_tool "rate" ∷ [])) 5 ∷ [])
      two_servers
    ≡ synced_registry
unfolding run_ops step register sync_one synced build_tool_definitions build qualified_by settle
    define_tool claims_of_others lookup insert prefix_of
syncs = refl

abbrev built : List ToolDefinition
built =
    record {
      name = "query";
      description = none;
      input_schema = no_fields;
      server_id = "pg";
      qualified_name = "pg.query";
      mutable_tool = false;
      tags = [];
    }
    ∷ []

builds :
    build_tool_definitions synced_registry (server "pg") (raw_tool "query" ∷ raw_tool "query" ∷ [])
    ≡ ok built
unfolding build_tool_definitions build qualified_by settle define_tool claims_of_others lookup
    insert prefix_of
builds = refl

build-IsDistinct_example :
    IsDistinct (names built)
    × All (λ t. owned_by_other "pg" t.qualified_name synced_registry.entries ≡ false) built
build-IsDistinct_example =
    build-IsDistinct synced_registry (server "pg") (raw_tool "query" ∷ raw_tool "query" ∷ []) built
      (inl refl) builds

-- Under the suffix policy the third tool of a name gets the name that the second one got.
abbrev by_suffix : ServerRegistry
by_suffix = record { entries = []; naming = record { strategy = bare; on_conflict = suffix } }

map_names : Result ToolNameConflict (List ToolDefinition) → Result ToolNameConflict (List String)
map_names (ok ts) = ok (names ts)
map_names (err c) = err c

suffix_repeats :
    map_names (
      build_tool_definitions by_suffix
        (server "pg")
        (raw_tool "q" ∷ raw_tool "q" ∷ raw_tool "q" ∷ []))
    ≡ ok ("q" ∷ "q_pg" ∷ "q_pg" ∷ [])
unfolding build_tool_definitions build qualified_by settle define_tool claims_of_others lookup
    insert map_names
suffix_repeats = refl

-- Two servers with the same tool.
abbrev shared : ServerRegistry
shared = record two_servers {
  entries = ("fx", fx_entry) ∷ ("pg", record fx_entry { server = server "pg" }) ∷ [];
}
