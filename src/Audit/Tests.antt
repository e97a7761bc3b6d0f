-- ===== src/Audit/Tests.antt =====
-- The theorems on the audit store at inputs that meet their hypotheses.
use mcp_gateway_python.Audit.Sorting.{IsNewestFirst}
use mcp_gateway_python.Audit.Pages.{matches, pages, pages-Permᴰ}
use mcp_gateway_python.Audit.Query.{Row, Filters, query, statement, where_equal}
use mcp_gateway_python.Audit.Memory.{sort, memory, memory-Executes}
use mathlib.Core.List.{Permᴰ}
use mcp_gateway_python.Prelude.{
  ℕ, List, ◌≡◌, ◌++◌, ◌∷◌, [], true, false, none, refl, arith, zero, suc, select, some, eqb,
}
use mcp_gateway_python.Audit.Store.{AuditEntry, AuditStore, Op, entry, tick, empty, run}
use mcp_gateway_python.Audit.Order.{log, recorded, log-run}

abbrev entry_at : ℕ → AuditEntry
entry_at n = record {
  request_id = "r";
  agent_id = "ops";
  server_id = "pg";
  tool_name = "sql";
  qualified_name = "pg.sql";
  mutable_tool = false;
  status = "ok";
  is_error = false;
  error_detail = none;
  latency_ms = n;
  guardrail_blocked = false;
  auth_denied = false;
  rate_limited = false;
  redacted = false;
  arguments_hash = "0";
}

-- Entries with the latencies below a number.
abbrev entries : ℕ → List AuditEntry
entries zero = []
entries (suc n) = entry_at n ∷ entries n

abbrev pub full : AuditStore
full = record { queue = entries 60; rows = [] }

abbrev ops : List Op
ops = entry (entry_at 1) ∷ entry (entry_at 2) ∷ tick true ∷ entry (entry_at 3) ∷ []

log-run_example : log (run ops empty) ≡ log empty ++ recorded ops
log-run_example = log-run ops empty (refl, tt) (omega arith)

abbrev row : ℕ → ℕ → Row
row at n = record { timestamp = at; entry = entry_at n }

abbrev everything : Filters
everything = record { agent_id = none; server_id = some ""; tool_name = none; status = some "ok" }

abbrev table : List Row
table = row 3 1 ∷ row 5 2 ∷ row 4 3 ∷ []

pages-Permᴰ_example :
    Permᴰ (select (matches everything) table) (pages (memory (λ o. true)) everything table 2 2 0)
    × IsNewestFirst (pages (memory (λ o. true)) everything table 2 2 0)
pages-Permᴰ_example =
    pages-Permᴰ (memory (λ o. true)) (memory-Executes (λ o. true)) everything table 2 2
      ((refl, (refl, tt)), ((refl, tt), (tt, tt))) (omega arith)

-- Two rows of one timestamp: the database may order them in one way for the first page and in the
-- other for the second, so that one row is given twice and the other never.
abbrev tied : List Row
tied = row 3 1 ∷ row 3 2 ∷ []

gives_twice : pages (memory (λ o. eqb o 0)) everything tied 1 2 0 ≡ row 3 1 ∷ row 3 1 ∷ []
unfolding sort query statement where_equal
gives_twice = refl
