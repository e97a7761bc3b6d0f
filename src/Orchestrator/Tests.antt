-- ===== src/Orchestrator/Tests.antt =====
-- Runs of calls, and their theorems at inputs that meet their hypotheses.
use mcp_gateway_python.Orchestrator.Call.{
  call_tool, steps, then_do, forward, serve, finish, after_upstream,
}
use mcp_gateway_python.Orchestrator.Returns.{answered, call_tool-serves}
use mcp_gateway_python.Orchestrator.Safety.{
  ResolvesTo, call, call_tool-Permitted, outgoing, call_tool-sends,
}
use mcp_gateway_python.Orchestrator.Repeat.{
  first, second, cleaned, Fills, Misses, call_tool-repeats,
}
use mcp_gateway_python.Prelude.{
  ◌∷◌, [], true, false, some, none, ◌==◌, if◌then◌else◌, ◌≡◌, refl, ok, String, ◌⊎◌, arith, inr,
}
use mcp_gateway_python.Json.{Fields, str, field, no_fields, dict}
use mcp_gateway_python.Cache.Tools.{CacheConfig, new, get_result, tool_ttl, result_key}
use mcp_gateway_python.Auth.Authorizer.{AgentPrincipal}
use mcp_gateway_python.RateLimit.Limiter.{RateLimiterConfig, new_limiter}
use mcp_gateway_python.Registry.Servers.{UpstreamServer, RegistryEntry, prefix_always, warn}
use mcp_gateway_python.Audit.Store as AuditLog
use mcp_gateway_python.Cache.Store.{empty, get}
use mcp_gateway_python.Redaction.Walk.{redact, walk, request}
use mcp_gateway_python.Redaction.Strings.{redact_string}
use mcp_gateway_python.Orchestrator.Call.{after_upstream}
use mcp_gateway_python.Orchestrator.Steps.{
  limited_by, call_upstream, replied, store, emit_audit, count, notify, authorize, limit, guard,
  validate_schema,
}
use mcp_gateway_python.Prelude.{lookup, insert}
use mcp_gateway_python.Prelude.Text.{lower, has_char, before, after}
use mcp_gateway_python.Auth.Authorizer.{can, authorize_tool_call}
use mcp_gateway_python.RateLimit.Bucket.{consume, refill}
use mcp_gateway_python.RateLimit.Bucket
use mcp_gateway_python.RateLimit.Limiter.{
  check, consume_agent, consume_tool, agent_bucket, tool_bucket, tool_key, agent_rate, agent_burst,
  setting,
}
use mcp_gateway_python.Registry.Servers.{prefix_of}
use mcp_gateway_python.Registry.Lookup.{find_by_qualified_tool, exact, by_prefix, bare_matches}
use mcp_gateway_python.Guardrails.Rules
use mcp_gateway_python.Orchestrator.Steps.{
  resolve, resolve_at, target, look_up, not_null, sent_request, result, authorize, limit,
  limited_by, guard, validate_schema,
}
use mcp_gateway_python.Orchestrator.Checks.{Permitted}
use mcp_gateway_python.Orchestrator.Gateway.{Gateway, World, Clock, content}

-- An engine that replaces one address, and an upstream that gives back a text with it.
abbrev pub world : World
world = record {
  lower = lower;
  search = λ p s. p == s;
  draft7 = λ schema args. some [];
  cache_hash = λ args. "0";
  audit_hash = λ args. "1";
  engine = record { analyze = none; subn = λ e new s. if s == "a@b.c" then (new, 1) else (s, 0) };
  upstream = λ request. content (str "a@b.c");
  message = λ f. "failed";
  details = λ agent server tool f. no_fields;
}

abbrev pub clock : Clock
clock = record { agent_check = 10; tool_check = 11; cache_read = 12; elapsed = 5; cache_write = 20 }

abbrev pub later : Clock
later = record clock { agent_check = 100; tool_check = 101; cache_read = 102 }

abbrev server : UpstreamServer
server = record {
  id = "pg";
  name = "Postgres";
  base_url = "http://pg";
  transport = "http";
  auth_header = none;
  auth_token = none;
  server_auth = none;
  tags = [];
  enabled = true;
  tool_prefix = none;
  mutable_tools = "write" ∷ [];
}

abbrev pub entry : RegistryEntry
entry = record {
  server = server;
  tools = [];
  last_synced = none;
  last_error = none;
  healthy = false;
}

abbrev limits : RateLimiterConfig
limits = record {
  enabled = true;
  default_agent_rate = 1000;
  default_agent_burst = 10000000;
  default_tool_rate = 1000;
  default_tool_burst = 10000000;
  agents = [];
  tools = [];
}

abbrev results : CacheConfig
results = record {
  enabled = true;
  manifest_ttl = 0;
  tool_results_enabled = true;
  default_tool_ttl = 1000;
  tool_ttls = [];
}

abbrev pub gateway : Gateway
gateway = record {
  registry = record {
    entries = ("pg", entry) ∷ [];
    naming = record { strategy = prefix_always; on_conflict = warn };
  };
  auth = record {
    enabled = true;
    oidc = record {
      enabled = false;
      algorithms = [];
      jwks_url = none;
      issuer = none;
      audience = none;
      secret = none;
      agent_id_claim = "sub";
      jwks_cache_ttl = 0;
    };
    agent_permissions = [];
    mutable_allowed_agents = "ops" ∷ [];
  };
  redaction = record {
    enabled = true;
    entities = "EMAIL_ADDRESS" ∷ [];
    redact_requests = true;
    redact_responses = true;
    replacement = λ e. "<redacted>";
  };
  safety = record { enabled = true; rules = [] };
  rate_limiter = some (new_limiter limits);
  audit = some AuditLog.empty;
  schema_validator = none;
  cache = some (new results);
  webhook_dispatcher = none;
  sent = [];
  counted = [];
}

abbrev pub ops : AgentPrincipal
ops = record { agent_id = "ops"; permissions = "*" ∷ [] }

abbrev pub guest : AgentPrincipal
guest = record { agent_id = "guest"; permissions = "read" ∷ [] }

abbrev pub args : Fields
args = field "to" (str "a@b.c") no_fields

resolves : resolve "pg.write" none gateway.registry ≡ ok (entry, "write")
unfolding resolve resolve_at find_by_qualified_tool exact by_prefix bare_matches has_char before
    after prefix_of
resolves = refl

resolves_read : resolve "pg.read" none gateway.registry ≡ ok (entry, "read")
unfolding resolve resolve_at find_by_qualified_tool exact by_prefix bare_matches has_char before
    after prefix_of
resolves_read = refl

permits_ops : Permitted world (target ops "r1" args (entry, "write")) clock gateway
unfolding target authorize_tool_call can check consume consume_agent consume_tool agent_bucket
    tool_bucket Bucket.new refill Rules.check lookup insert tool_key agent_rate agent_burst setting
    prefix_of new_limiter
permits_ops = (refl, refl, refl, tt)

permits_guest : Permitted world (target guest "r3" args (entry, "read")) clock gateway
unfolding target authorize_tool_call can check consume consume_agent consume_tool agent_bucket
    tool_bucket Bucket.new refill Rules.check lookup insert tool_key agent_rate agent_burst setting
    prefix_of new_limiter
permits_guest = (refl, refl, refl, tt)

call_tool-sends_example :
    ((call world clock ops "r1" "pg.write" args none gateway).1.sent ≡ [])
    ⊎ ((e : RegistryEntry) × (raw : String) × ResolvesTo world clock ops "r1" "pg.write" args none
          gateway e raw
        × Permitted world (target ops "r1" args (e, raw)) clock gateway
        × ((call world clock ops "r1" "pg.write" args none gateway).1.sent
            ≡ sent_request world
                (target ops "r1" args (e, raw))
                (outgoing world (target ops "r1" args (e, raw)) clock gateway)
              ∷ []))
call_tool-sends_example = call_tool-sends world clock ops "r1" "pg.write" args none gateway

call_tool-serves_example :
    (call world clock ops "r1" "pg.write" args none gateway).0
    ≡ ok (
        answered world
          (target ops "r1" args (entry, "write"))
          clock
          (str "a@b.c")
          gateway
          (redact gateway.redaction world.engine request (dict args)).1)
call_tool-serves_example =
    call_tool-serves world clock ops "r1" "pg.write" args none gateway entry "write" (str "a@b.c")
      (resolves, refl) permits_ops refl (inr refl)

call_tool-Permitted_example :
    (e : RegistryEntry) × (raw : String) × ResolvesTo world clock ops "r1" "pg.write" args none
      gateway e raw
    × Permitted world (target ops "r1" args (e, raw)) clock gateway
call_tool-Permitted_example =
    call_tool-Permitted world clock ops "r1" "pg.write" args none gateway
      (answered world (target ops "r1" args (entry, "write")) clock (str "a@b.c") gateway
        (redact gateway.redaction world.engine request (dict args)).1)
      call_tool-serves_example

misses : Misses world (target guest "r3" args (entry, "read")) clock gateway
unfolding target look_up get_result new not_null get redact walk redact_string result_key tool_ttl
    lookup empty
misses = refl

fills :
    Fills world (target guest "r3" args (entry, "read")) clock gateway (new results) (str "a@b.c")
unfolding target redact walk redact_string tool_ttl prefix_of lookup new
fills = (permits_guest, refl, refl, (refl, omega arith), misses, refl, λ e. cc)

permits_later :
    Permitted world
      (target ops "r4" args (entry, "read"))
      later
      (first world clock later guest ops "r3" "r4" "pg.read" args none gateway).1
unfolding target authorize_tool_call can check consume consume_agent consume_tool agent_bucket
    tool_bucket Bucket.new refill Rules.check lookup insert tool_key agent_rate agent_burst setting
    prefix_of new_limiter call_tool resolve resolve_at find_by_qualified_tool exact by_prefix
    bare_matches has_char before after steps authorize limit limited_by guard validate_schema
    then_do forward serve look_up finish after_upstream call_upstream replied store emit_audit
    notify count get_result new tool_ttl get empty
permits_later = (refl, refl, refl, tt)

call_tool-repeats_example :
    ((second world clock later guest ops "r3" "r4" "pg.read" args none gateway).0
      ≡ ok (
          result world
            (target ops "r4" args (entry, "read"))
            (cleaned world (target guest "r3" args (entry, "read")) clock gateway (str "a@b.c"))
            0
            (redact gateway.redaction world.engine request (dict args)).1
            true))
    × ((second world clock later guest ops "r3" "r4" "pg.read" args none gateway).1.sent
        ≡ (first world clock later guest ops "r3" "r4" "pg.read" args none gateway).1.sent)
unfolding tool_ttl target lookup prefix_of new
call_tool-repeats_example =
    call_tool-repeats world clock later guest ops "r3" "r4" "pg.read" args none gateway entry "read"
      (new results) (str "a@b.c") (resolves_read, refl) fills permits_later (omega arith)
