-- ===== src/App/Defaults/Tests.antt =====
-- A gateway without a configuration file, and a server with a mutable tool that is registered later.
use mcp_gateway_python.Prelude.{String, none, some, [], ◌∷◌, refl, true, false, err, Result, lookup}
use mcp_gateway_python.Prelude.Text.{starts_with}
use mcp_gateway_python.Json.{Value, no_fields}
use mcp_gateway_python.Registry.Servers
use mcp_gateway_python.Registry.Servers.{UpstreamServer, RegistryEntry, ServerRegistry}
use mcp_gateway_python.Orchestrator.Steps.{resolve, resolve_at}
use mcp_gateway_python.Orchestrator.Safety.{ResolvesTo}
use mcp_gateway_python.App.Config.{GatewayConfig}
use mcp_gateway_python.Audit.Store
use mcp_gateway_python.App.Defaults.{
  default_config, load_gateway_config, started, Refuses, missing_file-Refuses,
}
use mcp_gateway_python.App.Tests.{environ, visits, world, clock, ops}

abbrev vault : RegistryEntry
vault = record {
  server = record {
    id = "vault";
    name = "Vault";
    base_url = "http://vault";
    transport = "sse";
    auth_header = none;
    auth_token = none;
    server_auth = none;
    tags = [];
    enabled = true;
    tool_prefix = none;
    mutable_tools = "write" ∷ [];
  };
  tools = [];
  last_synced = none;
  last_error = none;
  healthy = false;
}

abbrev later : ServerRegistry
later = record { entries = ("vault", vault) ∷ []; naming = default_config.naming }

abbrev rejects : Value → Result String GatewayConfig
rejects v = err "invalid"

resolves :
    ResolvesTo world clock ops "r1" "write" no_fields
      (some "vault")
      (started environ visits Store.empty later default_config)
      vault
      "write"
unfolding resolve resolve_at Servers.get lookup starts_with Servers.prefix_of
resolves = (refl, refl)

missing_file-Refuses_example :
    Refuses environ visits Store.empty later world clock ops "r1" "write" no_fields
      (some "vault")
      default_config
unfolding load_gateway_config
missing_file-Refuses_example =
    missing_file-Refuses environ visits Store.empty later world clock ops "r1" "write" no_fields
      (some "vault") rejects default_config vault "write" refl resolves refl
