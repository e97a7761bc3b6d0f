-- ===== src/Orchestrator/Overlap/Tests.antt =====
-- Two calls that overlap, and a registry that is emptied before their answers arrive.
use mcp_gateway_python.Prelude.{refl, none, [], lookup, insert}
use mcp_gateway_python.Prelude.Text.{has_char, before, after}
use mcp_gateway_python.Json.{str, field, no_fields}
use mcp_gateway_python.Auth.Authorizer.{can, authorize_tool_call}
use mcp_gateway_python.RateLimit.Bucket.{consume, refill}
use mcp_gateway_python.RateLimit.Bucket
use mcp_gateway_python.RateLimit.Limiter.{
  check, consume_agent, consume_tool, agent_bucket, tool_bucket, tool_key, agent_rate, agent_burst,
  setting, new_limiter,
}
use mcp_gateway_python.Cache.Tools.{new, get_result, tool_ttl, result_key}
use mcp_gateway_python.Cache.Store.{empty, get}
use mcp_gateway_python.Redaction.Walk.{redact, walk}
use mcp_gateway_python.Redaction.Strings.{redact_string}
use mcp_gateway_python.Registry.Servers.{prefix_of}
use mcp_gateway_python.Registry.Lookup.{find_by_qualified_tool, exact, by_prefix, bare_matches}
use mcp_gateway_python.Guardrails.Rules
use mcp_gateway_python.Orchestrator.Gateway.{content}
use mcp_gateway_python.Orchestrator.Call.{then_do, checked}
use mcp_gateway_python.Orchestrator.Steps.{
  resolve, resolve_at, target, look_up, not_null, authorize, limit, limited_by, guard,
  validate_schema,
}
use mcp_gateway_python.Orchestrator.Tests.{world, clock, later, gateway, ops, guest, args, entry}
use mcp_gateway_python.Orchestrator.Overlap.{
  Call, Pending, Flight, begin, answer, depart, ask, join, Picks, here, there, Reach, begins,
  answers, registers, start, more, true,
}
use mcp_gateway_python.Orchestrator.Overlap.Sends.{Sends, calls, reach-sends}
use mcp_gateway_python.Orchestrator.Overlap.Settles.{IsBalanced, reach-IsBalanced}

abbrev writes : Call
writes = record {
  clock = clock;
  principal = ops;
  request_id = "r1";
  name = "pg.write";
  arguments = args;
  server_id = none;
}

abbrev reads : Call
reads = record writes { clock = later; principal = guest; request_id = "r2"; name = "pg.read" }

abbrev written : Pending
written = record {
  target = target ops "r1" args (entry, "write");
  clock = clock;
  redacted_args = field "to" (str "<redacted>") no_fields;
  req_redacted = true;
}

abbrev quiet : Flight
quiet = record { gateway = gateway; pending = [] }

abbrev one : Flight
one = record {
  gateway = (begin world writes gateway).1;
  pending = join (begin world writes gateway).0 [];
}

abbrev two : Flight
two = record {
  gateway = (begin world reads one.gateway).1;
  pending = join (begin world reads one.gateway).0 one.pending;
}

abbrev emptied : Flight
emptied = record two {
  gateway = record two.gateway { registry = record two.gateway.registry { entries = [] } };
}

abbrev answered : Flight
answered = record {
  gateway = (answer world written (content (str "x")) emptied.gateway).1;
  pending = join (begin world reads one.gateway).0 [];
}

picked : Picks written emptied.pending answered.pending
unfolding begin depart ask join resolve resolve_at find_by_qualified_tool exact by_prefix
    bare_matches has_char before after prefix_of target authorize_tool_call can check consume
    consume_agent consume_tool agent_bucket tool_bucket Bucket.new refill Rules.check lookup insert
    tool_key agent_rate agent_burst setting new_limiter checked then_do authorize limit limited_by
    guard validate_schema look_up not_null get_result new get redact walk redact_string result_key
    tool_ttl empty
picked = there _ _ _ _ (here _ _)

run : Reach world quiet answered
run =
    more quiet emptied answered
      (more quiet two emptied
        (more quiet one two (more quiet quiet one (start quiet) (begins writes quiet))
          (begins reads one))
        (registers _ two))
      (answers written answered.pending (content (str "x")) emptied picked)

reach-sends_example :
    Sends world (calls world quiet answered run) quiet.gateway.sent answered.gateway.sent
reach-sends_example = reach-sends world quiet answered run

reach-IsBalanced_example : IsBalanced answered
reach-IsBalanced_example = reach-IsBalanced world quiet answered run refl
