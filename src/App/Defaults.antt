-- ===== src/App/Defaults.antt =====
-- The defaults of `GatewayConfig` and of its policies, and `load_gateway_config`. The YAML parser and
-- pydantic's validation are parameters.
mod Tests
use mcp_gateway_python.Orchestrator.Safety.{ResolvesTo, call, call_tool-steps}
use mcp_gateway_python.Orchestrator.Steps.{authorize, target, emit_audit, count, Target, resolve_at}
use mcp_gateway_python.Orchestrator.Call.{steps, checked, then_do}
use mcp_gateway_python.Auth.Authorizer.{AgentPrincipal, authorize_tool_call, mutable_forbidden}
use mcp_gateway_python.Orchestrator.Gateway.{World, Clock, Gateway, orchestration_error, denied}
use mcp_gateway_python.Audit.Store.{AuditStore}
use mcp_gateway_python.App.State.{Visit, start, register_all, build_components}
use mcp_gateway_python.Credentials.Expand.{Environ}
use mcp_gateway_python.Registry.Servers.{prefix_always, warn, ServerRegistry, RegistryEntry}
use mathlib.Core.Path.{subst}
use mcp_gateway_python.Prelude.Int.{pos_part, neg_part}
use mcp_gateway_python.Json.{
  Value, dict, no_fields, bool, Fields, str, num, list, item, null, no_items,
}
use mcp_gateway_python.App.Config.{GatewayConfig}
use mcp_gateway_python.Prelude.{
  refl, ap, sym, true, false, none, some, [], ◌∷◌, ok, err, values, Result, String, Option,
  if◌then◌else◌, ◌==◌, eqb, ◌≡◌, ◌&&◌, All, elem, arith, ◌∙◌,
}
use mcp_gateway_python.Prelude.Text.{◌<>◌}

-- `GatewayConfig()`
abbrev pub default_config : GatewayConfig
default_config = record {
  upstreams = [];
  auth = record {
    enabled = true;
    oidc = record {
      enabled = false;
      algorithms = "RS256" ∷ [];
      jwks_url = none;
      issuer = none;
      audience = none;
      secret = none;
      agent_id_claim = "sub";
      jwks_cache_ttl = 300000;
    };
    agent_permissions = [];
    mutable_allowed_agents = [];
  };
  redaction = record {
    enabled = true;
    entities =
        "EMAIL_ADDRESS" ∷ "PHONE_NUMBER" ∷ "CREDIT_CARD" ∷ "US_SSN" ∷ "IP_ADDRESS" ∷ "IBAN_CODE"
        ∷ [];
    redact_requests = true;
    redact_responses = true;
    replacement = λ entity. "<REDACTED:" <> entity <> ">";
  };
  guardrails = record { enabled = true; rules = [] };
  rate_limiting = record {
    enabled = true;
    default_agent_rate = 10000;
    default_agent_burst = 20000000;
    default_tool_rate = 5000;
    default_tool_burst = 10000000;
    agents = [];
    tools = [];
  };
  circuit_breaker = record {
    enabled = true;
    failure_threshold = 5;
    recovery_timeout = 30000;
    probe_successes = 2;
  };
  naming = record { strategy = prefix_always; on_conflict = warn };
  schema_validation = record { enabled = true; strict_on_missing_schema = false };
  cache = record {
    enabled = true;
    manifest_ttl = 60000;
    tool_results_enabled = true;
    default_tool_ttl = 0;
    tool_ttls = [];
  };
  webhooks = [];
}

-- `value or {}`
unfoldable pub or_empty : Value → Value
or_empty null = dict no_fields
or_empty (bool b) = if b then bool b else dict no_fields
or_empty (str s) = if s == "" then dict no_fields else str s
or_empty (num n) = if eqb (pos_part n) 0 && eqb (neg_part n) 0 then dict no_fields else num n
or_empty (list no_items) = dict no_fields
or_empty (list (item v vs)) = list (item v vs)
or_empty (dict fs) = dict fs

-- `load_gateway_config`: what the file holds, if it exists, and what the validation makes of it.
unfoldable pub load_gateway_config :
    (Value → Result String GatewayConfig) → Option Value → Result String GatewayConfig
unfolding or_empty
load_gateway_config model_validate none = ok default_config
load_gateway_config model_validate (some raw) = model_validate (or_empty raw)

steps-denies :
    (w : World) (t : Target) (c : Clock) (g : Gateway)
    → g.auth ≡ default_config.auth
    → t.mutable_tool ≡ true
    → ((steps w t c g).0 ≡ err (orchestration_error (denied mutable_forbidden) 403))
      × ((steps w t c g).1.sent ≡ g.sent)
unfolding steps checked then_do authorize authorize_tool_call emit_audit count
steps-denies w t c g h m =
    ground (arith, ap (λ a. a.enabled) h, ap (λ a. a.mutable_allowed_agents) h)

-- The gateway that starts with a configuration, with whatever servers are registered afterwards.
abbrev pub started :
    Environ → (String → Visit) → AuditStore → ServerRegistry → GatewayConfig → Gateway
started environ visits audit r cfg = record (start environ visits audit cfg).gateway {
  registry = r;
}

module _ (environ : Environ) (visits : String → Visit) (audit : AuditStore) (r : ServerRegistry)
    (w : World) (c : Clock) (p : AgentPrincipal) (request_id name : String) (arguments : Fields)
    (server_id : Option String) where
  -- It starts with no servers, and refuses the call.
  abbrev pub Refuses : GatewayConfig → Type 0
  Refuses cfg =
      ((start environ visits audit cfg).gateway.registry.entries ≡ [])
      × ((call w c p request_id name arguments server_id (started environ visits audit r cfg)).0
          ≡ err (orchestration_error (denied mutable_forbidden) 403))
      × ((call w c p request_id name arguments server_id
            (started environ visits audit r cfg)).1.sent
          ≡ [])

  -- A gateway that starts without a configuration file has no servers, and whatever is registered
  -- later, it refuses each call of a mutable tool with 403: no agent may make it, and nothing is
  -- sent.
  pub missing_file-Refuses :
      (model_validate : Value → Result String GatewayConfig) (cfg : GatewayConfig)
      (e : RegistryEntry) (raw : String)
      → load_gateway_config model_validate none ≡ ok cfg
      → ResolvesTo w c p request_id name arguments server_id
          (started environ visits audit r cfg)
          e
          raw
      → elem raw e.server.mutable_tools ≡ true
      → Refuses cfg
  unfolding load_gateway_config start register_all build_components target
  missing_file-Refuses model_validate cfg e raw h res m =
      let same : cfg ≡ default_config = ground arith in
      let at : ResolvesTo w c p request_id name arguments server_id
          (started environ visits audit r default_config) e raw =
        subst
          (λ k.
            ResolvesTo w c p request_id name arguments server_id (started environ visits audit r k)
              e raw)
          same res in
      let t = target p request_id arguments (e, raw) in
      let run =
        call_tool-steps w c p request_id name arguments server_id
          (started environ visits audit r default_config) e raw at in
      let (refused, silent) =
        steps-denies w t c (started environ visits audit r default_config) refl m in
      subst Refuses (sym same) (refl, ap (λ o. o.0) run ∙ refused, ap (λ o. o.1.sent) run ∙ silent)
