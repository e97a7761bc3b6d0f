-- ===== src/App/State.antt =====
-- The application's state, `_build_components`, and the registry's operations with the clients and
-- the breakers of the entries. A client and the breaker registry share a breaker: what a client does
-- to its breaker is written back under the server's id.
use mcp_gateway_python.Breaker.Pool
use mcp_gateway_python.Registry.Servers
use mcp_gateway_python.Cache.Tools
use mcp_gateway_python.Prelude.{
  ℕ, String, Bool, false, none, some, List, [], ◌∷◌, Dict, lookup, insert, erase, if◌then◌else◌,
  Result, ok, err, not,
}
use mcp_gateway_python.Breaker.Pool.{CircuitBreakerRegistry}
use mcp_gateway_python.Credentials.Expand.{Environ}
use mcp_gateway_python.Credentials.Provider.{transport, unexpected}
use mcp_gateway_python.Client.Content.{Tool}
use mcp_gateway_python.Client.Session.{McpClient, Failure, upstream, raised, new_client}
use mcp_gateway_python.Client.Calls.{Run, list_tools}
use mcp_gateway_python.Registry.Servers.{UpstreamServer, ServerRegistry, RegistryEntry}
use mcp_gateway_python.Registry.Naming.{RawTool, Listing, listed, failed, sync_one}
use mcp_gateway_python.Auth.Authorizer.{Authorizer, new_authorizer}
use mcp_gateway_python.RateLimit.Limiter.{RateLimiterConfig, new_limiter}
use mcp_gateway_python.Schema.{ToolSchemaValidator}
use mcp_gateway_python.Audit.Store.{AuditStore}
use mcp_gateway_python.Webhooks.Dispatcher.{WebhookDispatcher, WebhookConfig}
use mcp_gateway_python.Orchestrator.Gateway.{Gateway}
use mcp_gateway_python.App.Config.{
  GatewayConfig, RateLimitingPolicy, CircuitBreakerPolicy, SchemaValidationConfig,
}

pub record App : Type 0 where
  pub config : GatewayConfig
  pub gateway : Gateway
  pub authorizer : Authorizer
  pub breakers : CircuitBreakerRegistry
  pub clients : Dict McpClient

-- The settings that the limiter copies.
unfoldable pub limiter_config : RateLimitingPolicy → RateLimiterConfig
limiter_config p = record {
  enabled = p.enabled;
  default_agent_rate = p.default_agent_rate;
  default_agent_burst = p.default_agent_burst;
  default_tool_rate = p.default_tool_rate;
  default_tool_burst = p.default_tool_burst;
  agents = p.agents;
  tools = p.tools;
}

unfoldable pub validator_of : SchemaValidationConfig → ToolSchemaValidator
validator_of c = record {
  enabled = c.enabled;
  strict_on_missing_schema = c.strict_on_missing_schema;
}

unfoldable pub dispatcher_of : List WebhookConfig → WebhookDispatcher
dispatcher_of cfgs = record { configs = cfgs; seq = 0; tasks = [] }

-- `CircuitBreakerRegistry` of the registry's constructor
unfoldable pub breakers_of : CircuitBreakerPolicy → CircuitBreakerRegistry
breakers_of p = record {
  enabled = p.enabled;
  failure_threshold = p.failure_threshold;
  recovery_timeout = p.recovery_timeout;
  probe_successes = p.probe_successes;
  breakers = [];
}

-- `_build_components`, with the rows that the audit database holds.
unfoldable pub build_components : AuditStore → GatewayConfig → App
unfolding limiter_config validator_of dispatcher_of breakers_of
build_components audit cfg = record {
  config = cfg;
  gateway = record {
    registry = record { entries = []; naming = cfg.naming };
    auth = cfg.auth;
    redaction = cfg.redaction;
    safety = cfg.guardrails;
    rate_limiter = some (new_limiter (limiter_config cfg.rate_limiting));
    audit = some audit;
    schema_validator = some (validator_of cfg.schema_validation);
    cache = some (Tools.new cfg.cache);
    webhook_dispatcher = some (dispatcher_of cfg.webhooks);
    sent = [];
    counted = [];
  };
  authorizer = new_authorizer cfg.auth;
  breakers = breakers_of cfg.circuit_breaker;
  clients = [];
}

-- What a sync meets: the upstream, and the time at which its answer is entered.
pub record Visit : Type 0 where
  pub run : Run (List Tool)
  pub synced_at : ℕ

failure_text : Failure → String
failure_text (upstream e) = e.message
failure_text (raised (transport text)) = text
failure_text (raised (unexpected text)) = text

unfoldable pub listing_of : Result Failure (List RawTool) → Listing
unfolding failure_text
listing_of (ok raws) = listed raws
listing_of (err f) = failed (failure_text f)

-- The client of a server as a call leaves it, its breaker included.
unfoldable pub put_client : String → McpClient → App → App
put_client sid c a = record a {
  clients = insert sid c a.clients;
  breakers = elim c.cb [
    | none ↦ a.breakers
    | some b ↦ record a.breakers { breakers = insert sid b a.breakers.breakers }
  ];
}

abbrev pub set_registry : ServerRegistry → App → App
set_registry r a = record a { gateway = record a.gateway { registry = r } }

-- `deregister`
unfoldable pub deregister_server : String → App → Bool × App
deregister_server sid a =
    let (found, r) = Servers.deregister sid a.gateway.registry in
    (found, set_registry r (record a { clients = erase sid a.clients }))

module _ (environ : Environ) where
  -- `sync_one`, with the call of the entry's client
  unfoldable pub sync_server : Visit → String → App → Bool × App
  unfolding listing_of put_client
  sync_server v sid a = elim (lookup sid a.gateway.registry.entries) [
    | none ↦ (false, a)
    | some e ↦ if not e.server.enabled then (false, a) else elim (lookup sid a.clients) [
      | none ↦ (false, a)
      | some c ↦
          let (answer, c') = list_tools environ v.run c in
          let (healthy, r) = sync_one sid (listing_of answer) v.synced_at a.gateway.registry in
          (healthy, set_registry r (put_client sid c' a))
    ]
  ]

  -- The client of a new entry, with the breaker of its server.
  unfoldable pub add_client : UpstreamServer → App → App
  add_client s a =
      if a.breakers.enabled
      then (let (b, pool) = Pool.get s.id a.breakers in
          record a {
            clients = insert s.id (new_client environ s (some b)) a.clients;
            breakers = pool;
          })
      else record a { clients = insert s.id (new_client environ s none) a.clients }

  -- `register` with `sync=True`
  unfoldable pub register_server : Visit → UpstreamServer → App → App
  unfolding sync_server add_client
  register_server v s a =
      let a' = set_registry (Servers.register s a.gateway.registry) (add_client s a) in
      if s.enabled then (sync_server v s.id a').1 else a'

  -- The start of the application, up to the background tasks: the servers are registered in the
  -- order of the configuration.
  unfoldable pub register_all : (String → Visit) → List UpstreamServer → App → App
  unfolding register_server
  register_all visits [] a = a
  register_all visits (s ∷ ss) a = register_all visits ss (register_server (visits s.id) s a)

  unfoldable pub start : (String → Visit) → AuditStore → GatewayConfig → App
  unfolding register_all build_components
  start visits audit cfg = register_all visits cfg.upstreams (build_components audit cfg)

  -- `sync_all`, and a round of the health sweep: the syncs enter their answers one after another.
  unfoldable pub sync_all : List (String × Visit) → App → App
  unfolding sync_server
  sync_all [] a = a
  sync_all ((sid, v) ∷ rest) a = sync_all rest (sync_server v sid a).1
