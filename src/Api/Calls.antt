-- ===== src/Api/Calls.antt =====
-- The routes that call a tool, and the middleware that gives a request its id.
use Prim.Native.Nat.{zero}
use mcp_gateway_python.Prelude.{
  ℕ, suc, String, Option, List, [], ◌∷◌, ◌++◌, Result, ok, err, get_or,
}
use mcp_gateway_python.Json.{Fields}
use mcp_gateway_python.Credentials.Provider.{nonempty}
use mcp_gateway_python.Auth.Authorizer.{AgentPrincipal}
use mcp_gateway_python.Orchestrator.Gateway.{
  World, Clock, CallError, orchestration_error, uncaught, ToolCallResult,
}
use mcp_gateway_python.Orchestrator.Call
use mcp_gateway_python.App.State.{App}
use mcp_gateway_python.Api.Http.{
  Settings, Request, Response, done, http_exception, raised, require_api_key, Lookup, get_principal,
}

-- `ToolCallRequest`
pub record ToolCallRequest : Type 0 where
  pub name : String
  pub arguments : Fields
  pub server_id : Option String

-- The id that the middleware gives a request: its header's, or a new one.
unfoldable pub request_id_of : String → Request → String
request_id_of uuid r = get_or (nonempty (r.header "X-Request-Id")) uuid

-- What a route's dependencies and its handler meet.
pub record Exchange : Type 1 where
  pub settings : Settings
  pub request : Request
  pub uuid : String
  pub lookup : Lookup
  pub world : World
  pub clock : Clock

-- The dependencies of the routes: the API key, then the principal.
unfoldable pub admit : Exchange → App → Response AgentPrincipal × App
unfolding require_api_key get_principal
admit x a = elim (require_api_key x.settings x.request) [
  | http_exception code detail ↦ (http_exception code detail, a)
  | raised text ↦ (raised text, a)
  | done _ ↦
      let (p, authorizer) = get_principal x.settings x.lookup x.request a.authorizer in
      (p, record a { authorizer = authorizer })
]

-- `orchestrator.call_tool` on the application, for a principal.
unfoldable pub orchestrate :
    Exchange → ToolCallRequest → AgentPrincipal → App → Result CallError ToolCallResult × App
unfolding request_id_of
orchestrate x payload p a =
    let (r, g) =
      Call.call_tool x.world x.clock p (request_id_of x.uuid x.request) payload.name
        payload.arguments payload.server_id a.gateway in
    (r, record a { gateway = g })

-- How the route answers the end of a call.
unfoldable pub respond : World → Result CallError ToolCallResult → Response ToolCallResult
respond w (ok r) = done r
respond w (err (orchestration_error f code)) = http_exception code (w.message f)
respond w (err (uncaught f)) = raised (w.message f)

answer_admitted :
    Exchange → ToolCallRequest → Response AgentPrincipal × App → Response ToolCallResult × App
unfolding respond orchestrate
answer_admitted x payload (http_exception code detail, a) = (http_exception code detail, a)
answer_admitted x payload (raised text, a) = (raised text, a)
answer_admitted x payload (done p, a) =
    let (r, a') = orchestrate x payload p a in (respond x.world r, a')

-- The route of `call_tool`
unfoldable pub call_tool_route : Exchange → ToolCallRequest → App → Response ToolCallResult × App
unfolding answer_admitted admit
call_tool_route x payload a = answer_admitted x payload (admit x a)

-- The events of the stream.
pub data Event : Type 0 where
  start : String → String → Event
  progress : Event
  error : ℕ → String → Event
  result : ToolCallResult → Event

-- The heartbeats, one for every five seconds that the call takes.
abbrev pub heartbeats : ℕ → List Event
heartbeats zero = []
heartbeats (suc n) = progress ∷ heartbeats n

-- The last event.
unfoldable pub final : World → Result CallError ToolCallResult → Event
final w (ok r) = result r
final w (err (orchestration_error f code)) = error code (w.message f)
final w (err (uncaught f)) = error 500 (w.message f)

stream_admitted :
    Exchange → ℕ → ToolCallRequest → Response AgentPrincipal × App → Response (List Event) × App
unfolding final orchestrate
stream_admitted x n payload (http_exception code detail, a) = (http_exception code detail, a)
stream_admitted x n payload (raised text, a) = (raised text, a)
stream_admitted x n payload (done p, a) =
    let (r, a') = orchestrate x payload p a in
    (done (start payload.name p.agent_id ∷ (heartbeats n ++ final x.world r ∷ [])), a')

-- The route of `call_tool_stream`, for a call that takes `n` timeouts
unfoldable pub call_tool_stream : Exchange → ℕ → ToolCallRequest → App → Response (List Event) × App
unfolding stream_admitted admit
call_tool_stream x n payload a = stream_admitted x n payload (admit x a)
