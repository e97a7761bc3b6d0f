-- ===== src/Client/Tests.antt =====
-- The theorems of a client at inputs that meet their hypotheses.
use mcp_gateway_python.Prelude.{
  String, none, some, List, [], ◌∷◌, ◌≡◌, ◌==◌, if◌then◌else◌, refl, ok, err, leb, true, false, All,
  arith, ◌≤◌, ◌<◌,
}
use mcp_gateway_python.Json.{Value, no_fields}
use mcp_gateway_python.Breaker.{CircuitBreaker, init, before_call, on_failure}
use mcp_gateway_python.Credentials.Expand.{Environ, resolve_env}
use mcp_gateway_python.Credentials.Provider.{
  Moment, post_failed, unexpected, transport, get_headers,
}
use mcp_gateway_python.Registry.Servers.{UpstreamServer}
use mcp_gateway_python.Client.Content.{CallToolResult, text_block, server_error, Tool}
use mcp_gateway_python.Client.Session.{
  McpClient, connected, open_failed, new_client, upstream, connect, open_session, get_session,
  resolve_headers, reset_session,
}
use mcp_gateway_python.Client.Calls.{
  Run, Attempt, answered, call_tool, gate, through_gate, retrying, retry_after, attempt, settle,
  guarded, list_tools, on_err,
}
use mcp_gateway_python.Client.Breaking.{refusal}
use mcp_gateway_python.Client.Outage.{after_requests, Fail, after_requests-refused}
use mcp_gateway_python.Client.Wire.{Request, tool, tools, close, run, session_of}
use mcp_gateway_python.Client.Headers.{run-bare}
use mcp_gateway_python.Client.Requests.{requests, call_tool-requests}

abbrev environ : Environ
environ = λ name. if name == "TOKEN" then some "t0" else none

abbrev text_of : Value → String
text_of v = "failed"

abbrev server : UpstreamServer
server = record {
  id = "pg";
  name = "Postgres";
  base_url = "http://pg/";
  transport = "streamable-http";
  auth_header = some "X-Key";
  auth_token = some "${TOKEN}";
  server_auth = none;
  tags = [];
  enabled = true;
  tool_prefix = none;
  mutable_tools = [];
}

abbrev breaker : CircuitBreaker
breaker = init "pg" 1 30000 2

abbrev moment : Moment
moment = record {
  asked_at = 0;
  reply = λ url form. post_failed (unexpected "none");
  replied_at = 0;
}

abbrev reply : CallToolResult
reply = record { content = text_block "rows" ∷ []; is_error = false }

-- An upstream that answers, and one that cannot be reached.
abbrev up : Attempt CallToolResult
up = record { moment = moment; opened = connected; answer = λ s. answered reply }

abbrev down : Attempt CallToolResult
down = record {
  moment = moment;
  opened = open_failed (transport "refused");
  answer = λ s. answered reply;
}

-- The first attempt fails, and the second one is answered.
abbrev retried : Run CallToolResult
retried = record { gate_at = 5; failed_at = 9; attempts = λ n. if leb n 1 then down else up }

abbrev answered_run : Run CallToolResult
answered_run = record { gate_at = 5; failed_at = 9; attempts = λ n. up }

abbrev failing : Run CallToolResult
failing = record { gate_at = 5; failed_at = 9; attempts = λ n. down }

abbrev client : McpClient
client = new_client environ server (some breaker)

call_tool-requests_example :
    (requests (call_tool environ text_of "read" no_fields none retried client).1.wire ≤ 3)
    × ((v : Value)
        → (call_tool environ text_of "read" no_fields none retried client).0 ≡ ok v
        → 0 < requests (call_tool environ text_of "read" no_fields none retried client).1.wire)
unfolding new_client
call_tool-requests_example = call_tool-requests environ text_of "read" no_fields none retried client

abbrev requested : List Request
requested =
    tool "read" no_fields (some "alice") answered_run
    ∷ close
    ∷ tool "read" no_fields none retried
    ∷ []

run-bare_example :
    All (λ a. (session_of a).headers ≡ []) (run environ text_of requested client).wire
run-bare_example = run-bare environ text_of server (some breaker) requested refl

-- The tools cannot be listed, the client is closed, and a call of another agent fails.
abbrev lost : List Request
lost =
    tools (record {
      gate_at = 4;
      failed_at = 9;
      attempts = λ n. record {
        moment = moment;
        opened = open_failed (transport "refused");
        answer = λ s. answered [];
      };
    })
    ∷ close
    ∷ tool "write" no_fields (some "bob") failing
    ∷ []

abbrev tripping : McpClient
tripping = new_client environ server (some (record breaker { failure_threshold = 2 }))

abbrev broken : McpClient
broken = after_requests environ text_of lost tripping

fails : Fail environ text_of 9 lost tripping
unfolding guarded gate before_call through_gate retrying retry_after attempt get_session
    open_session resolve_headers get_headers connect new_client init settle resolve_env call_tool
    list_tools reset_session on_err on_failure
fails = (
  (upstream (record { message = "refused"; code = server_error }), ground arith),
  omega arith,
  ((upstream (record { message = "refused"; code = server_error }), ground arith), omega arith, tt),
)

abbrev listed_run : Run (List Tool)
listed_run = record {
  gate_at = 6;
  failed_at = 9;
  attempts = λ n. record { moment = moment; opened = connected; answer = λ s. answered [] };
}

after_requests-refused_example :
    (call_tool environ text_of "read" no_fields none answered_run broken
      ≡ (err (refusal broken), broken))
    × (list_tools environ listed_run broken ≡ (err (refusal broken), broken))
unfolding new_client init
after_requests-refused_example =
    after_requests-refused environ text_of 9 lost "read" no_fields none answered_run listed_run
      tripping (record breaker { failure_threshold = 2 }) refl refl (omega arith) (omega arith)
      fails (omega arith) (omega arith)
