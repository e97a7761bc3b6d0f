-- ===== src/Api/Views.antt =====
-- The routes that show the state, and the one that reloads the configuration.
use mcp_gateway_python.Prelude.{
  ℕ, String, Bool, Option, none, some, List, [], ◌∷◌, Dict, lookup, length, Result, ok, err,
}
use mcp_gateway_python.Breaker.{CircuitBreaker, CircuitState}
use mcp_gateway_python.Credentials.Expand.{Environ}
use mcp_gateway_python.Credentials.Settings.{Method, static, env, oauth2}
use mcp_gateway_python.Credentials.Provider.{nonempty}
use mcp_gateway_python.Registry.Servers.{UpstreamServer, RegistryEntry}
use mcp_gateway_python.Registry.Lookup.{list_conflicts}
use mcp_gateway_python.Orchestrator.Gateway.{ToolManifest}
use mcp_gateway_python.Orchestrator.Call.{build_manifest}
use mcp_gateway_python.App.Config.{GatewayConfig}
use mcp_gateway_python.App.State.{App, Visit}
use mcp_gateway_python.App.Reload.{do_reload}
use mcp_gateway_python.Api.Http.{Response, done, raised}

-- `CircuitBreaker.to_dict`
pub record BreakerView : Type 0 where
  pub state : CircuitState
  pub failures : ℕ
  pub probe_ok : ℕ
  pub opened_at : Option ℕ

unfoldable pub breaker_view : CircuitBreaker → BreakerView
breaker_view c = record {
  state = c.state;
  failures = c.failures;
  probe_ok = c.probe_ok;
  opened_at = c.opened_at;
}

-- `all_states`
unfoldable pub all_states : Dict CircuitBreaker → Dict BreakerView
unfolding breaker_view
all_states [] = []
all_states ((sid, c) ∷ d) = (sid, breaker_view c) ∷ all_states d

strategy_name : Method → String
strategy_name static = "static"
strategy_name env = "env"
strategy_name oauth2 = "oauth2"

-- `auth_strategy`
unfoldable pub auth_strategy : UpstreamServer → String
unfolding strategy_name
auth_strategy s = elim s.server_auth [
  | some cfg ↦ strategy_name cfg.strategy
  | none ↦ elim (nonempty s.auth_header) [ none ↦ "none" | some h ↦ "static" ]
]

-- What `ServerRegistry.to_dict` tells of an entry.
pub record ServerView : Type 0 where
  pub id : String
  pub name : String
  pub base_url : String
  pub enabled : Bool
  pub healthy : Bool
  pub tool_count : ℕ
  pub last_synced : Option ℕ
  pub last_error : Option String
  pub tags : List String
  pub circuit_breaker : Option BreakerView
  pub auth_strategy : String

unfoldable pub server_view : Dict BreakerView → String → RegistryEntry → ServerView
unfolding auth_strategy
server_view states sid e = record {
  id = e.server.id;
  name = e.server.name;
  base_url = e.server.base_url;
  enabled = e.server.enabled;
  healthy = e.healthy;
  tool_count = length e.tools;
  last_synced = e.last_synced;
  last_error = e.last_error;
  tags = e.server.tags;
  circuit_breaker = lookup sid states;
  auth_strategy = auth_strategy e.server;
}

-- `ServerRegistry.to_dict`, and the route `list_servers`
unfoldable pub to_dict : Dict BreakerView → Dict RegistryEntry → Dict ServerView
unfolding server_view
to_dict states [] = []
to_dict states ((sid, e) ∷ d) = (sid, server_view states sid e) ∷ to_dict states d

unfoldable pub list_servers : App → Dict ServerView
unfolding to_dict all_states
list_servers a = to_dict (all_states a.breakers.breakers) a.gateway.registry.entries

-- The route `circuit_breaker_states`
unfoldable pub circuit_breaker_states : App → Dict BreakerView
unfolding all_states
circuit_breaker_states a = all_states a.breakers.breakers

-- The route `tool_name_conflicts`
unfoldable pub tool_name_conflicts : App → Dict (List String) × ℕ
tool_name_conflicts a =
    let conflicts = list_conflicts a.gateway.registry in (conflicts, length conflicts)

-- The route `list_tools`
unfoldable pub list_tools : Option String → ℕ → App → ToolManifest × App
list_tools tag now a =
    let (m, g) = build_manifest tag now a.gateway in (m, record a { gateway = g })

-- The route `hot_reload`; an exception of the loading is a response of status 500.
unfoldable pub hot_reload :
    Environ
    → (String → Visit)
    → Result String GatewayConfig
    → App
    → Response (List String × List String × List String) × App
hot_reload environ visits loaded a =
    let (r, a') = do_reload environ visits loaded a in
    (elim r [ ok report ↦ done report | err text ↦ raised text ], a')
