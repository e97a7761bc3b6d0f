-- ===== src/Api/Tests.antt =====
-- The theorems of the API at inputs that meet their hypotheses.
use mcp_gateway_python.Prelude.Text.{lower}
use mcp_gateway_python.Audit.Store
use mcp_gateway_python.Prelude.{
  ℕ, String, none, some, [], ◌∷◌, ◌++◌, ◌≡◌, ◌⊎◌, ◌==◌, if◌then◌else◌, refl, true, false,
}
use mcp_gateway_python.Json.{str, no_fields}
use mcp_gateway_python.Registry.Servers.{UpstreamServer, RegistryEntry, prefix_always, warn}
use mcp_gateway_python.Registry.Invariant.{IsValid}
use mcp_gateway_python.Auth.Authorizer.{AgentPrincipal}
use mcp_gateway_python.Orchestrator.Gateway.{World, Clock, content}
use mcp_gateway_python.App.Config.{GatewayConfig}
use mcp_gateway_python.App.State.{App, build_components}
use mcp_gateway_python.Api.Http.{done, http_exception, raised}
use mcp_gateway_python.Api.Calls.{
  Exchange, ToolCallRequest, admit, call_tool_route, call_tool_stream, start, heartbeats,
}
use mcp_gateway_python.Api.Access.{
  HasKey, Identifies, SendsFor, as_event, call_tool_route-sends, call_tool_stream-call_tool_route,
}

abbrev world : World
world = record {
  lower = lower;
  search = λ p s. p == s;
  draft7 = λ schema args. some [];
  cache_hash = λ args. "0";
  audit_hash = λ args. "1";
  engine = record { analyze = none; subn = λ e new s. (s, 0) };
  upstream = λ request. content (str "rows");
  message = λ f. "failed";
  details = λ agent server tool f. no_fields;
}

abbrev clock : Clock
clock = record { agent_check = 10; tool_check = 11; cache_read = 12; elapsed = 5; cache_write = 20 }

abbrev pg : UpstreamServer
pg = record {
  id = "pg";
  name = "Postgres";
  base_url = "http://pg";
  transport = "sse";
  auth_header = none;
  auth_token = none;
  server_auth = none;
  tags = [];
  enabled = true;
  tool_prefix = none;
  mutable_tools = [];
}

abbrev config : GatewayConfig
config = record {
  upstreams = pg ∷ [];
  auth = record {
    enabled = true;
    oidc = record {
      enabled = false;
      algorithms = [];
      jwks_url = none;
      issuer = none;
      audience = none;
      secret = none;
      agent_id_claim = "sub";
      jwks_cache_ttl = 0;
    };
    agent_permissions = [];
    mutable_allowed_agents = "ops" ∷ [];
  };
  redaction = record {
    enabled = true;
    entities = [];
    redact_requests = true;
    redact_responses = true;
    replacement = λ e. "<redacted>";
  };
  guardrails = record { enabled = true; rules = [] };
  rate_limiting = record {
    enabled = true;
    default_agent_rate = 10;
    default_agent_burst = 20;
    default_tool_rate = 5;
    default_tool_burst = 10;
    agents = [];
    tools = [];
  };
  circuit_breaker = record {
    enabled = true;
    failure_threshold = 5;
    recovery_timeout = 30000;
    probe_successes = 2;
  };
  naming = record { strategy = prefix_always; on_conflict = warn };
  schema_validation = record { enabled = true; strict_on_missing_schema = false };
  cache = record {
    enabled = true;
    manifest_ttl = 60;
    tool_results_enabled = true;
    default_tool_ttl = 0;
    tool_ttls = [];
  };
  webhooks = [];
}

-- The entry of the server, after a sync.
abbrev entry : RegistryEntry
entry = record { server = pg; tools = []; last_synced = some 1; last_error = none; healthy = true }

-- A second one, which is not reached.
abbrev lost : RegistryEntry
lost = record entry {
  server = record pg { id = "fs" };
  healthy = false;
  last_error = some "refused";
}

abbrev fresh : App
fresh = build_components Store.empty config

abbrev app : App
app = record fresh {
  gateway = record fresh.gateway {
    registry = record fresh.gateway.registry { entries = ("pg", entry) ∷ ("fs", lost) ∷ [] };
  };
}

abbrev exchange : Exchange
exchange = record {
  settings = record {
    api_key_header = "X-API-Key";
    api_key = some "key";
    agent_id_header = "X-Agent-Id";
  };
  request = record {
    header = λ name.
        if name == "X-API-Key"
        then some "key"
        else if name == "X-Agent-Id"
        then some "ops"
        else none;
  };
  uuid = "r1";
  lookup = record {
    jose = record {
      Key = Unit {0};
      decode_secret = λ cfg secret token. none;
      decode = λ cfg token key. none;
      unverified_kid = λ token. none;
      construct = λ v. none;
      text_of = λ v. "";
    };
    now = 1;
    key_set = none;
    text = λ d. "denied";
  };
  world = world;
  clock = clock;
}

abbrev payload : ToolCallRequest
payload = record { name = "pg.read"; arguments = no_fields; server_id = none }

call_tool_route-sends_example :
    ((call_tool_route exchange payload app).1.gateway.sent ≡ app.gateway.sent)
    ⊎ ((p : AgentPrincipal) × HasKey exchange.settings exchange.request
        × Identifies exchange app.authorizer p
        × SendsFor exchange payload p app.gateway (call_tool_route exchange payload app).1.gateway)
call_tool_route-sends_example = call_tool_route-sends exchange payload app

call_tool_stream-call_tool_route_example :
    ((call_tool_stream exchange 2 payload app).1 ≡ (call_tool_route exchange payload app).1)
    × (((p : AgentPrincipal) × ((admit exchange app).0 ≡ done p)
          × ((call_tool_stream exchange 2 payload app).0
              ≡ done (
                  start "pg.read" p.agent_id
                  ∷ (heartbeats 2 ++ as_event (call_tool_route exchange payload app).0 ∷ []))))
        ⊎ (((code : ℕ) × (detail : String) × ((call_tool_stream exchange 2 payload app).0
                ≡ http_exception code detail)
              × ((call_tool_route exchange payload app).0 ≡ http_exception code detail))
            ⊎ ((text : String) × ((call_tool_stream exchange 2 payload app).0 ≡ raised text)
                × ((call_tool_route exchange payload app).0 ≡ raised text))))
call_tool_stream-call_tool_route_example = call_tool_stream-call_tool_route exchange 2 payload app

valid : IsValid app.gateway.registry
valid = ((refl, (refl, tt)), (refl, (refl, tt)))
