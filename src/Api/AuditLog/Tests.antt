-- ===== src/Api/AuditLog/Tests.antt =====
-- A page of the audit log.
use mcp_gateway_python.Prelude.{
  ℕ, none, some, [], ◌∷◌, ◌≡◌, refl, true, In, All, length, ◌≤◌, String, false,
}
use mcp_gateway_python.Prelude.Int.{pos}
use mcp_gateway_python.Audit.Query.{Row, Filters, query, statement, where_equal}
use mcp_gateway_python.Audit.Pages.{matches}
use mcp_gateway_python.Audit.Sorting.{IsNewestFirst}
use mcp_gateway_python.Audit.Memory.{memory, memory-Executes, sort}
use mcp_gateway_python.Api.Http.{done}
use mcp_gateway_python.Api.AuditLog.{AuditPage, query_audit, query_audit_sound, List}

abbrev row : ℕ → String → Row
row at agent = record {
  timestamp = at;
  entry = record {
    request_id = "r";
    agent_id = agent;
    server_id = "pg";
    tool_name = "sql";
    qualified_name = "pg.sql";
    mutable_tool = false;
    status = "ok";
    is_error = false;
    error_detail = none;
    latency_ms = 3;
    guardrail_blocked = false;
    auth_denied = false;
    rate_limited = false;
    redacted = false;
    arguments_hash = "0";
  };
}

abbrev table : List Row
table = row 3 "ops" ∷ row 5 "guest" ∷ row 4 "ops" ∷ row 9 "ops" ∷ []

abbrev of_ops : Filters
of_ops = record { agent_id = some "ops"; server_id = none; tool_name = none; status = some "" }

abbrev answer : AuditPage
answer = record { entries = row 4 "ops" ∷ row 3 "ops" ∷ []; count = 2 }

answers : query_audit (memory (λ o. true)) of_ops (pos 5) (pos 1) table ≡ done answer
unfolding query_audit query statement where_equal sort
answers = refl

query_audit_sound_example :
    (answer.count ≡ length answer.entries)
    × (answer.count ≤ 500)
    × (answer.count ≤ 5)
    × All (λ r. In r table × (matches of_ops r ≡ true)) answer.entries
    × IsNewestFirst answer.entries
query_audit_sound_example =
    query_audit_sound (memory (λ o. true)) of_ops (pos 5) (pos 1) table answer
      (memory-Executes (λ o. true)) answers
