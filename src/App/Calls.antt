-- ===== src/App/Calls.antt =====
-- A tool call of the orchestrator through the client of the server's entry.
use mcp_gateway_python.Orchestrator.Call
use mcp_gateway_python.Client.Calls
use mcp_gateway_python.Prelude.{
  String, Option, none, some, [], ◌∷◌, lookup, length, ltb, if◌then◌else◌, Result, ok, err,
}
use mcp_gateway_python.Json.{Value, Fields}
use mcp_gateway_python.Credentials.Expand.{Environ}
use mcp_gateway_python.Credentials.Provider.{transport, unexpected}
use mcp_gateway_python.Auth.Authorizer.{AgentPrincipal}
use mcp_gateway_python.Client.Content.{CallToolResult}
use mcp_gateway_python.Client.Session.{McpClient, Failure, upstream}
use mcp_gateway_python.Client.Session as Session
use mcp_gateway_python.Client.Calls.{Run}
use mcp_gateway_python.Orchestrator.Gateway.{
  Gateway, World, Clock, Sent, CallError, ToolCallResult, UpstreamReply, content, upstream_failed,
  raised,
}
use mcp_gateway_python.App.State.{App, put_client}

-- What a call through a client takes from outside: the environment, Python's `str` of a payload, and
-- what the client meets.
pub record Upstream : Type 0 where
  pub environ : Environ
  pub str_of : Value → String
  pub run : Run CallToolResult

-- The client's side of a request that goes out.
unfoldable pub forward : Upstream → Sent → McpClient → Result Failure Value × McpClient
forward u s c = Calls.call_tool u.environ u.str_of s.tool s.arguments (some s.agent_id) u.run c

unfoldable pub reply_of : Result Failure Value → UpstreamReply
reply_of (ok v) = content v
reply_of (err (upstream e)) = upstream_failed e.message
reply_of (err (Session.raised (transport text))) = raised text
reply_of (err (Session.raised (unexpected text))) = raised text

-- The orchestrator's world, in which the upstream servers answer through the clients.
unfoldable pub world_of : World → Upstream → App → World
unfolding forward reply_of
world_of w u a = record w {
  upstream = λ s. elim (lookup s.server_id a.clients) [
    | none ↦ raised "no client"
    | some c ↦ reply_of (forward u s c).0
  ];
}

-- What the clients are after the call, which sends at most one request.
unfoldable pub settle_clients : Upstream → Gateway → Gateway → App → App
unfolding forward put_client
settle_clients u g g' a =
    if ltb (length g.sent) (length g'.sent)
    then (elim g'.sent [
      | [] ↦ a
      | s ∷ rest ↦ elim (lookup s.server_id a.clients) [
        | none ↦ a
        | some c ↦ put_client s.server_id (forward u s c).1 a
      ]
    ])
    else a

-- `call_tool` of the orchestrator, on the application.
unfoldable pub call_server :
    World
    → Upstream
    → Clock
    → AgentPrincipal
    → String
    → String
    → Fields
    → Option String
    → App
    → Result CallError ToolCallResult × App
unfolding world_of settle_clients
call_server w u clock p request_id name arguments server_id a =
    let (r, g) =
      Call.call_tool (world_of w u a) clock p request_id name arguments server_id a.gateway in
    (r, record (settle_clients u a.gateway g a) { gateway = g })
