-- ===== src/Orchestrator/Returns.antt =====
-- What a call that passes every check returns.
use mcp_gateway_python.Prelude.{
  refl, ◌≡◌, ◌⊎◌, true, none, ok, arith, ◌||◌, map_option, Bool, false, String, Option, elem,
}
use mcp_gateway_python.Json.{Value, dict, Fields}
use mcp_gateway_python.Redaction.Walk.{redact, request, response}
use mcp_gateway_python.RateLimit.Limiter.{check}
use mcp_gateway_python.Auth.Authorizer.{AgentPrincipal}
use mcp_gateway_python.Registry.Servers.{RegistryEntry}
use mcp_gateway_python.Orchestrator.Gateway.{Gateway, World, Clock, content, ToolCallResult}
use mcp_gateway_python.Orchestrator.Steps.{
  target, Target, authorize, limit, limited_by, guard, validate_schema, look_up, call_upstream,
  replied, sent_request, result,
}
use mcp_gateway_python.Orchestrator.Call.{forward, serve, after_upstream, finish, then_do, steps}
use mcp_gateway_python.Orchestrator.Checks.{Permitted}
use mcp_gateway_python.Orchestrator.Safety.{outgoing, ResolvesTo, target_at, call, call_tool-steps}

module _ (w : World) (t : Target) (c : Clock) where
  -- The tokens that the rate limiter takes.
  abbrev pub throttled : Gateway → Gateway
  throttled g = record g {
    rate_limiter =
        map_option (λ l. (check t.principal.agent_id t.qualified c.agent_check c.tool_check l).1)
          g.rate_limiter;
  }

  authorize-ok : (g : Gateway) → Permitted w t c g → authorize w t g ≡ (ok tt, g)
  unfolding authorize
  authorize-ok g h = ground arith

  limit-ok : (g : Gateway) → Permitted w t c g → limit w t c g ≡ (ok tt, throttled g)
  unfolding limit limited_by
  limit-ok g h = ground arith

  guard-ok : (g : Gateway) → Permitted w t c g → guard w t (throttled g) ≡ (ok tt, throttled g)
  unfolding guard
  guard-ok g h = ground arith

  validate_schema-ok :
      (g : Gateway) → Permitted w t c g → validate_schema w t (throttled g) ≡ (ok tt, throttled g)
  unfolding validate_schema
  validate_schema-ok g h = ground arith

  pub steps-ok : (g : Gateway) → Permitted w t c g → steps w t c g ≡ forward w t c (throttled g)
  unfolding steps then_do
  steps-ok g h = rw (authorize-ok g h, limit-ok g h, guard-ok g h, validate_schema-ok g h) refl

  -- The result that the upstream's content leads to.
  abbrev pub answered : Value → Gateway → Bool → ToolCallResult
  answered v g was =
      let (clean, redacted) = redact g.redaction w.engine response v in
      result w t clean c.elapsed (was || redacted) false

  forward-content :
      (g : Gateway) (v : Value)
      → w.upstream (sent_request w t (outgoing w t c g)) ≡ content v
      → (g.cache ≡ none) ⊎ (t.mutable_tool ≡ true)
      → (forward w t c g).0
        ≡ ok (answered v g (redact g.redaction w.engine request (dict t.arguments)).1)
  unfolding forward serve look_up after_upstream call_upstream replied finish
  forward-content g v u n = ground arith

module _ (w : World) (c : Clock) (p : AgentPrincipal) (request_id name : String)
    (arguments : Fields) (server_id : Option String) (g : Gateway) where
  -- A call that passes every check and that the upstream answers with content returns that content,
  -- redacted, if there is no cache or the tool is mutable; it is said to be redacted if the request
  -- or the response was.
  pub call_tool-serves :
      (e : RegistryEntry) (raw : String) (v : Value)
      → ResolvesTo w c p request_id name arguments server_id g e raw
      → Permitted w (target_at w c p request_id name arguments server_id g e raw) c g
      → w.upstream (
          sent_request w
            (target_at w c p request_id name arguments server_id g e raw)
            (outgoing w (target_at w c p request_id name arguments server_id g e raw) c g))
        ≡ content v
      → (g.cache ≡ none) ⊎ (elem raw e.server.mutable_tools ≡ true)
      → (call w c p request_id name arguments server_id g).0
        ≡ ok (
            answered w
              (target_at w c p request_id name arguments server_id g e raw)
              c
              v
              g
              (redact g.redaction w.engine request (dict arguments)).1)
  unfolding target
  call_tool-serves e raw v h q u n =
      let t = target p request_id arguments (e, raw) in
      rw (call_tool-steps w c p request_id name arguments server_id g e raw h, steps-ok w t c g q)
        (forward-content w t c (throttled w t c g) v u n)
