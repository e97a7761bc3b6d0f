-- ===== src/App/Reach.antt =====
-- Which clients a tool call reaches, and how often.
use mcp_gateway_python.Prelude.{
  ap, ◌∙◌, eq_refl, false, lookup-insert, if◌then◌else◌, String, Option, some, ◌∷◌, ◌≡◌, ◌⊎◌, ◌≤◌,
  ◌+◌, inl, inr, lookup, Option-cases, arith, ◌==◌,
}
use mcp_gateway_python.Json.{Fields}
use mcp_gateway_python.Auth.Authorizer.{AgentPrincipal}
use mcp_gateway_python.Client.Session.{McpClient}
use mcp_gateway_python.Client.Requests.{requests, call_tool-requests}
use mcp_gateway_python.Registry.Servers.{RegistryEntry}
use mcp_gateway_python.Orchestrator.Gateway.{Gateway, World, Clock, Sent}
use mcp_gateway_python.Orchestrator.Call
use mcp_gateway_python.Orchestrator.Steps.{sent_request, target}
use mcp_gateway_python.Orchestrator.Checks.{Permitted}
use mcp_gateway_python.Orchestrator.Safety.{ResolvesTo, target_at, outgoing, call_tool-sends}
use mcp_gateway_python.App.State.{App, put_client}
use mcp_gateway_python.App.Calls.{Upstream, forward, world_of, settle_clients, call_server}

-- The client of an id is as it was, or there was one and it has sent at most three more tool calls.
abbrev pub Sparing : String → App → App → Type 0
Sparing j a b =
    (lookup j b.clients ≡ lookup j a.clients)
    ⊎ ((c : McpClient) × (d : McpClient) × (lookup j a.clients ≡ some c)
        × (lookup j b.clients ≡ some d)
        × (requests d.wire ≤ requests c.wire + 3))

quiet_lem :
    (u : Upstream) (g g' : Gateway) (a : App) → g'.sent ≡ g.sent → settle_clients u g g' a ≡ a
unfolding settle_clients
quiet_lem u g g' a same = ground (arith, same)

-- A request changes the client of its server, if there is one, and no other.
sent_lem :
    (u : Upstream) (g g' : Gateway) (a : App) (s : Sent)
    → g'.sent ≡ s ∷ g.sent
    → (settle_clients u g g' a ≡ a)
      ⊎ ((c : McpClient) × (lookup s.server_id a.clients ≡ some c)
          × (settle_clients u g g' a ≡ put_client s.server_id (forward u s c).1 a))
unfolding settle_clients
sent_lem u g g' a s sent = elim (Option-cases (lookup s.server_id a.clients)) [
  | inl absent ↦ inl (ground (arith, sent, absent))
  | inr (c, held) ↦ inr (c, held, ground (arith, sent, held))
]

put_lem :
    (sid j : String) (c : McpClient) (a : App)
    → lookup j (put_client sid c a).clients ≡ (if sid == j then some c else lookup j a.clients)
unfolding put_client
put_lem sid j c a = lookup-insert sid j c a.clients

reach_lem :
    (u : Upstream) (g g' : Gateway) (a : App) (s : Sent)
    → g'.sent ≡ s ∷ g.sent
    → Sparing s.server_id a (settle_clients u g g' a)
      × ((j : String)
          → (s.server_id == j) ≡ false
          → lookup j (settle_clients u g g' a).clients ≡ lookup j a.clients)
unfolding forward
reach_lem u g g' a s sent = elim (sent_lem u g g' a s sent) [
  | inl none_there ↦ (
    inl (ap (λ b. lookup s.server_id b.clients) none_there),
    λ j other. ap (λ b. lookup j b.clients) none_there,
  )
  | inr (c, held, at) ↦
      let d = (forward u s c).1 in
      let now : lookup s.server_id (settle_clients u g g' a).clients ≡ some d =
        ap (λ b. lookup s.server_id b.clients) at
        ∙ (put_lem s.server_id s.server_id d a ∙ ground (arith, eq_refl s.server_id)) in
      let bound =
        call_tool-requests u.environ u.str_of s.tool s.arguments (some s.agent_id) u.run c in
      (
        inr (c, d, held, now, bound.0),
        λ j other.
            ap (λ b. lookup j b.clients) at ∙ (put_lem s.server_id j d a ∙ ground (arith, other)),
      )
]

module _ (w : World) (u : Upstream) (clock : Clock) (p : AgentPrincipal) (request_id name : String)
    (arguments : Fields) (server_id : Option String) (a : App) where
  abbrev pub after : App
  after = (call_server w u clock p request_id name arguments server_id a).1

  -- A tool call changes no client at all; or its name resolves to an enabled server, whether or not
  -- that server lists such a tool, the caller passes every check, the client of that server sends at
  -- most three more tool calls, with all its retries, and every other server's client is as it was.
  pub call_server-reaches :
      (after.clients ≡ a.clients)
      ⊎ ((e : RegistryEntry) × (raw : String) × ResolvesTo
            (world_of w u a)
            clock
            p
            request_id
            name
            arguments
            server_id
            a.gateway
            e
            raw
          × Permitted
              (world_of w u a)
              (target_at
                (world_of w u a)
                clock
                p
                request_id
                name
                arguments
                server_id
                a.gateway
                e
                raw)
              clock
              a.gateway
          × Sparing e.server.id a after
          × ((j : String)
              → (e.server.id == j) ≡ false
              → lookup j after.clients ≡ lookup j a.clients))
  unfolding call_server target
  call_server-reaches =
      let x = world_of w u a in
      let g' = (Call.call_tool x clock p request_id name arguments server_id a.gateway).1 in
      elim (call_tool-sends x clock p request_id name arguments server_id a.gateway) [
        | inl quiet ↦ inl (ap (λ b. b.clients) (quiet_lem u a.gateway g' a quiet))
        | inr (e, raw, to, permitted, sent) ↦
            let t = target_at x clock p request_id name arguments server_id a.gateway e raw in
            let s = sent_request x t (outgoing x t clock a.gateway) in
            let (sparing, others) = reach_lem u a.gateway g' a s sent in
            inr (e, raw, to, permitted, sparing, others)
      ]
