-- ===== src/App/Tests.antt =====
-- The theorems of the application at inputs that meet their hypotheses.
use mcp_gateway_python.Prelude.Text.{lower}
use mcp_gateway_python.Audit.Store
use mcp_gateway_python.Prelude.{
  ◌⊎◌, ◌==◌, false, String, none, some, [], ◌∷◌, ◌≡◌, refl, ok, true, lookup, insert,
}
use mcp_gateway_python.Credentials.Expand.{Environ}
use mcp_gateway_python.Credentials.Provider.{Moment, post_failed, unexpected}
use mcp_gateway_python.Registry.Servers
use mcp_gateway_python.Registry.Servers.{UpstreamServer, RegistryEntry, prefix_always, warn}
use mcp_gateway_python.Client.Content.{schema_other, text_block}
use mcp_gateway_python.Client.Session.{connected}
use mcp_gateway_python.Client.Calls.{answered}
use mcp_gateway_python.Json.{str, no_fields}
use mcp_gateway_python.Auth.Authorizer.{AgentPrincipal}
use mcp_gateway_python.Orchestrator.Gateway.{World, Clock, content}
use mcp_gateway_python.Orchestrator.Checks.{Permitted}
use mcp_gateway_python.Orchestrator.Safety.{ResolvesTo, target_at}
use mcp_gateway_python.App.Calls.{Upstream, world_of}
use mcp_gateway_python.App.Reach.{after, Sparing, call_server-reaches}
use mcp_gateway_python.App.Config.{GatewayConfig}
use mcp_gateway_python.App.State.{App, Visit, start, build_components}
use mcp_gateway_python.App.Servers.{served}
use mcp_gateway_python.App.Reload.{do_reload, must_reopen}
use mcp_gateway_python.App.Updates.{applied, do_reload-served}
use mcp_gateway_python.App.Policies.{lasting, do_reload-policies}
use mcp_gateway_python.App.Clients.{do_reload-client}

abbrev pub environ : Environ
environ = λ name. none

abbrev pg : UpstreamServer
pg = record {
  id = "pg";
  name = "Postgres";
  base_url = "http://pg";
  transport = "sse";
  auth_header = none;
  auth_token = none;
  server_auth = none;
  tags = [];
  enabled = true;
  tool_prefix = none;
  mutable_tools = [];
}

abbrev fs : UpstreamServer
fs = record pg { id = "fs"; base_url = "http://fs" }

-- The same place, with a credential.
abbrev pg_with_key : UpstreamServer
pg_with_key = record pg { auth_header = some "X-Key"; auth_token = some "k" }

abbrev config : GatewayConfig
config = record {
  upstreams = pg ∷ [];
  auth = record {
    enabled = true;
    oidc = record {
      enabled = false;
      algorithms = [];
      jwks_url = none;
      issuer = none;
      audience = none;
      secret = none;
      agent_id_claim = "sub";
      jwks_cache_ttl = 0;
    };
    agent_permissions = [];
    mutable_allowed_agents = "ops" ∷ [];
  };
  redaction = record {
    enabled = true;
    entities = [];
    redact_requests = true;
    redact_responses = true;
    replacement = λ e. "<redacted>";
  };
  guardrails = record { enabled = true; rules = [] };
  rate_limiting = record {
    enabled = true;
    default_agent_rate = 10;
    default_agent_burst = 20;
    default_tool_rate = 5;
    default_tool_burst = 10;
    agents = [];
    tools = [];
  };
  circuit_breaker = record {
    enabled = true;
    failure_threshold = 5;
    recovery_timeout = 30000;
    probe_successes = 2;
  };
  naming = record { strategy = prefix_always; on_conflict = warn };
  schema_validation = record { enabled = true; strict_on_missing_schema = false };
  cache = record {
    enabled = true;
    manifest_ttl = 60;
    tool_results_enabled = true;
    default_tool_ttl = 0;
    tool_ttls = [];
  };
  webhooks = [];
}

-- Another server is added, the thresholds are changed, and the old server has a credential now.
abbrev next : GatewayConfig
next = record config {
  upstreams = pg_with_key ∷ fs ∷ [];
  circuit_breaker = record config.circuit_breaker { failure_threshold = 1 };
}

abbrev moment : Moment
moment = record {
  asked_at = 0;
  reply = λ url form. post_failed (unexpected "none");
  replied_at = 0;
}

abbrev pub visits : String → Visit
visits = λ sid. record {
  run = record {
    gate_at = 1;
    failed_at = 2;
    attempts = λ n. record {
      moment = moment;
      opened = connected;
      answer = λ s.
          answered (record { name = "read"; description = none; input_schema = schema_other } ∷ []);
    };
  };
  synced_at = 3;
}

abbrev pub running : App
running = start environ visits Store.empty config

do_reload-served_example :
    served "pg" (do_reload environ visits (ok next) running).1
    ≡ applied running.config.upstreams pg_with_key (served "pg" running)
do_reload-served_example = do_reload-served environ visits next "pg" running (refl, (refl, tt))

do_reload-policies_example :
    let b = (do_reload environ visits (ok next) running).1 in
    let fresh = build_components Store.empty next in
    (b.gateway ≡ record fresh.gateway {
      registry = b.gateway.registry;
      audit = running.gateway.audit;
      sent = running.gateway.sent;
      counted = running.gateway.counted;
    })
    × (b.authorizer ≡ fresh.authorizer)
    × (b.config ≡ next)
    × (lasting b ≡ lasting running)
do_reload-policies_example = do_reload-policies environ visits next Store.empty running

do_reload-client_example :
    lookup "pg" (do_reload environ visits (ok next) running).1.clients ≡ lookup "pg" running.clients
unfolding must_reopen start lookup Servers.register insert
do_reload-client_example =
    do_reload-client environ "pg" visits next pg_with_key pg running (refl, (refl, tt)) refl refl
      refl

abbrev pub world : World
world = record {
  lower = lower;
  search = λ p s. p == s;
  draft7 = λ schema args. some [];
  cache_hash = λ args. "0";
  audit_hash = λ args. "1";
  engine = record { analyze = none; subn = λ e new s. (s, 0) };
  upstream = λ request. content (str "rows");
  message = λ f. "failed";
  details = λ agent server tool f. no_fields;
}

abbrev pub clock : Clock
clock = record { agent_check = 10; tool_check = 11; cache_read = 12; elapsed = 5; cache_write = 20 }

abbrev remote : Upstream
remote = record {
  environ = environ;
  str_of = λ v. "";
  run = record {
    gate_at = 10;
    failed_at = 11;
    attempts = λ n. record {
      moment = moment;
      opened = connected;
      answer = λ s. answered (record { content = text_block "rows" ∷ []; is_error = false });
    };
  };
}

abbrev pub ops : AgentPrincipal
ops = record { agent_id = "ops"; permissions = "*" ∷ [] }

call_server-reaches_example :
    let b = after world remote clock ops "r1" "pg.read" no_fields none running in
    let w = world_of world remote running in
    (b.clients ≡ running.clients)
    ⊎ ((e : RegistryEntry) × (raw : String) × ResolvesTo w clock ops "r1" "pg.read" no_fields none
          running.gateway e raw
        × Permitted w
            (target_at w clock ops "r1" "pg.read" no_fields none running.gateway e raw)
            clock
            running.gateway
        × Sparing e.server.id running b
        × ((j : String)
            → (e.server.id == j) ≡ false
            → lookup j b.clients ≡ lookup j running.clients))
call_server-reaches_example =
    call_server-reaches world remote clock ops "r1" "pg.read" no_fields none running
