-- ===== src/Api/Access.antt =====
-- What a request must carry to reach an upstream, and how the two routes compare.
use mcp_gateway_python.Prelude.{
  ℕ, ◌++◌, [], String, none, some, ◌∷◌, ok, ◌≡◌, ◌⊎◌, inl, inr, refl, arith, ap, ◌∙◌, eq_iff,
  Option-cases,
}
use mcp_gateway_python.Auth.Authorizer.{AgentPrincipal, Authorizer, identify}
use mcp_gateway_python.Registry.Servers.{RegistryEntry}
use mcp_gateway_python.Orchestrator.Gateway.{Gateway, ToolCallResult}
use mcp_gateway_python.Orchestrator.Call
use mcp_gateway_python.Orchestrator.Steps.{sent_request}
use mcp_gateway_python.Orchestrator.Checks.{Permitted}
use mcp_gateway_python.Orchestrator.Safety.{ResolvesTo, target_at, outgoing, call_tool-sends}
use mcp_gateway_python.App.State.{App}
use mcp_gateway_python.Api.Http.{
  Settings, Request, Response, done, http_exception, raised, require_api_key, get_principal,
  bearer_of, agent_of,
}
use mcp_gateway_python.Api.Calls.{
  Exchange, ToolCallRequest, admit, orchestrate, respond, call_tool_route, call_tool_stream, Event,
  start, error, result, heartbeats, final, request_id_of,
}

-- The request has the API key, if one is set.
abbrev pub HasKey : Settings → Request → Type 0
HasKey s r =
    (s.api_key ≡ none)
    ⊎ ((key : String) × (s.api_key ≡ some key) × (r.header s.api_key_header ≡ some key))

-- The authorizer identifies the request's agent.
abbrev pub Identifies : Exchange → Authorizer → AgentPrincipal → Type 0
Identifies x a p =
    (identify x.lookup.jose x.lookup.now x.lookup.key_set (agent_of x.settings x.request)
      (bearer_of (x.request.header "Authorization")) a).0
    ≡ ok p

require_api_key_sound : (s : Settings) (r : Request) → require_api_key s r ≡ done tt → HasKey s r
unfolding require_api_key
require_api_key_sound s r h = elim (Option-cases s.api_key) [
  | inl free ↦ inl free
  | inr (key, set) ↦ elim (Option-cases (r.header s.api_key_header)) [
    | inl missing ↦ ground arith
    | inr (provided, given) ↦ inr (key, set, ground (arith, eq_iff provided key))
  ]
]

get_principal_sound :
    (x : Exchange) (a : Authorizer) (p : AgentPrincipal)
    → (get_principal x.settings x.lookup x.request a).0 ≡ done p
    → Identifies x a p
unfolding get_principal
get_principal_sound x a p h = ground arith

Response-cases :
    {A : Type 0} (r : Response A)
    → ((a : A) × (r ≡ done a))
      ⊎ (((code : ℕ) × (detail : String) × (r ≡ http_exception code detail))
          ⊎ ((text : String) × (r ≡ raised text)))
Response-cases (done a) = inl (a, refl)
Response-cases (http_exception code detail) = inr (inl (code, detail, refl))
Response-cases (raised text) = inr (inr (text, refl))

admit-cases :
    (x : Exchange) (a : App)
    → ((p : AgentPrincipal) × ((admit x a).0 ≡ done p)
        × HasKey x.settings x.request
        × Identifies x a.authorizer p)
      ⊎ (((code : ℕ) × (detail : String) × ((admit x a).0 ≡ http_exception code detail))
          ⊎ ((text : String) × ((admit x a).0 ≡ raised text)))
unfolding admit
admit-cases x a = elim (Response-cases (admit x a).0) [
  | inl (p, at) ↦ elim (Response-cases (require_api_key x.settings x.request)) [
    | inl (_, let_in) ↦ inl (
      p,
      at,
      require_api_key_sound x.settings x.request let_in,
      get_principal_sound x a.authorizer p (ground arith),
    )
    | inr (inl (code, detail, kept_out)) ↦ ground arith
    | inr (inr (text, kept_out)) ↦ ground arith
  ]
  | inr other ↦ inr other
]

admit-gateway : (x : Exchange) (a : App) → (admit x a).1.gateway ≡ a.gateway
unfolding admit
admit-gateway x a = ground arith

-- What a call sends, on the gateway, for a principal.
abbrev pub SendsFor : Exchange → ToolCallRequest → AgentPrincipal → Gateway → Gateway → Type 0
SendsFor x t p g g' =
    (e : RegistryEntry) × (raw : String) × ResolvesTo x.world x.clock p
      (request_id_of x.uuid x.request) t.name t.arguments t.server_id g e raw
    × (let target =
          target_at x.world x.clock p (request_id_of x.uuid x.request) t.name t.arguments
            t.server_id g e raw in
        Permitted x.world target x.clock g
        × (g'.sent ≡ sent_request x.world target (outgoing x.world target x.clock g) ∷ g.sent))

-- A request to call a tool sends nothing upstream; or it has the API key, if one is set, its agent
-- is identified, the name resolves to an enabled server and a tool name, which that server need not
-- list, that agent passes every check, and one request goes out, to that server, with that tool
-- name and the redacted arguments.
pub call_tool_route-sends :
    (x : Exchange) (t : ToolCallRequest) (a : App)
    → ((call_tool_route x t a).1.gateway.sent ≡ a.gateway.sent)
      ⊎ ((p : AgentPrincipal) × HasKey x.settings x.request
          × Identifies x a.authorizer p
          × SendsFor x t p a.gateway (call_tool_route x t a).1.gateway)
unfolding call_tool_route orchestrate
call_tool_route-sends x t a = elim (admit-cases x a) [
  | inl (p, at, key, who) ↦
      let sends =
        call_tool-sends x.world x.clock p (request_id_of x.uuid x.request) t.name t.arguments
          t.server_id a.gateway in
      let id = request_id_of x.uuid x.request in
      let after : (call_tool_route x t a).1.gateway
          ≡ (Call.call_tool x.world x.clock p id t.name t.arguments t.server_id a.gateway).1 =
        ground (arith, at, admit-gateway x a) in
      elim sends [
        | inl nothing ↦ inl (ap (λ g. g.sent) after ∙ nothing)
        | inr (e, raw, to, permitted, sent) ↦
            inr (p, key, who, (e, raw, to, (permitted, ap (λ g. g.sent) after ∙ sent)))
      ]
  | inr (inl (code, detail, at)) ↦ inl (ground (arith, at, admit-gateway x a))
  | inr (inr (text, at)) ↦ inl (ground (arith, at, admit-gateway x a))
]

-- The event that says how the plain route answers.
abbrev pub as_event : Response ToolCallResult → Event
as_event (done r) = result r
as_event (http_exception code detail) = error code detail
as_event (raised text) = error 500 text

-- The stream does to the application what the plain route does, however long the call takes. A
-- request that is not admitted gets the same exception from both; for an admitted one the stream
-- is the start, one heartbeat for each timeout, and then one event, with the plain route's result,
-- or the code and the text of its error.
pub call_tool_stream-call_tool_route :
    (x : Exchange) (n : ℕ) (t : ToolCallRequest) (a : App)
    → ((call_tool_stream x n t a).1 ≡ (call_tool_route x t a).1)
      × (((p : AgentPrincipal) × ((admit x a).0 ≡ done p)
            × ((call_tool_stream x n t a).0
                ≡ done (
                    start t.name p.agent_id
                    ∷ (heartbeats n ++ as_event (call_tool_route x t a).0 ∷ []))))
          ⊎ (((code : ℕ) × (detail : String) × ((call_tool_stream x n t a).0
                  ≡ http_exception code detail)
                × ((call_tool_route x t a).0 ≡ http_exception code detail))
              ⊎ ((text : String) × ((call_tool_stream x n t a).0 ≡ raised text)
                  × ((call_tool_route x t a).0 ≡ raised text))))
unfolding call_tool_stream call_tool_route respond final
call_tool_stream-call_tool_route x n t a = elim (Response-cases (admit x a).0) [
  | inl (p, at) ↦ (ground (arith, at), inl (p, at, ground (arith, at)))
  | inr (inl (code, detail, at)) ↦
      (ground (arith, at), inr (inl (code, detail, ground (arith, at), ground (arith, at))))
  | inr (inr (text, at)) ↦
      (ground (arith, at), inr (inr (text, ground (arith, at), ground (arith, at))))
]
