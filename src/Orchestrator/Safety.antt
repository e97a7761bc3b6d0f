-- ===== src/Orchestrator/Safety.antt =====
-- What a call may do: what it sends upstream, what it stores, and what it leaves in the audit log.
use mcp_gateway_python.Registry.Servers.{RegistryEntry}
use mcp_gateway_python.Auth.Authorizer.{AgentPrincipal}
use mcp_gateway_python.Prelude.{
  ◌≡◌, ◌⊎◌, true, ok, err, if◌then◌else◌, map_option, ◌∷◌, arith, Result, String, Option,
  Result-cases, elem, inr, inl, ap, Bool-cases, ◌∙◌, ◌≢◌, refl,
}
use mcp_gateway_python.Json.{Fields, dict}
use mcp_gateway_python.Redaction.Walk.{redact, request}
use mcp_gateway_python.Audit.Store.{enqueue}
use mcp_gateway_python.Orchestrator.Gateway.{
  Gateway, World, Clock, CallError, ToolCallResult, orchestration_error, server_disabled,
}
use mcp_gateway_python.Orchestrator.Steps.{
  Target, look_up, call_upstream, replied, call_failed, store, sent_request, emit_audit, count,
  notify, audit_entry, ok_outcome, target, resolve,
}
use mcp_gateway_python.Orchestrator.Call.{
  fields_of, finish, after_upstream, serve, forward, call_tool, steps,
}
use mcp_gateway_python.Orchestrator.Checks.{Recorded, steps_lem, Permitted}

module _ (w : World) (t : Target) (c : Clock) where
  -- The arguments as they go out: the redaction of what came in.
  abbrev pub outgoing : Gateway → Fields
  outgoing g = fields_of (redact g.redaction w.engine request (dict t.arguments)).0

  forward-sent :
      (g : Gateway)
      → ((forward w t c g).1.sent ≡ g.sent)
        ⊎ ((forward w t c g).1.sent ≡ sent_request w t (outgoing g) ∷ g.sent)
  unfolding forward serve look_up after_upstream call_upstream replied call_failed finish store
      count emit_audit notify
  forward-sent g = ground arith

  forward-cache : (g : Gateway) → t.mutable_tool ≡ true → (forward w t c g).1.cache ≡ g.cache
  unfolding forward serve look_up after_upstream call_upstream replied call_failed finish store
      count emit_audit notify
  forward-cache g m = ground arith

  -- What a call leaves in the audit log, by how it ends.
  abbrev pub Audited : Gateway → Result CallError ToolCallResult × Gateway → Type 0
  Audited g (err e, g') = Recorded w t c e g g'
  Audited g (ok r, g') = g'.audit ≡ (
      if r.cached
      then g.audit
      else map_option (enqueue (audit_entry w t (ok_outcome w t r.latency_ms r.redacted))) g.audit)

ok≢err :
    {r : Result CallError ToolCallResult} (a : ToolCallResult) (e : CallError)
    → r ≡ ok a
    → r ≢ err e
ok≢err a e h k = cc

module _ (w : World) (c : Clock) (p : AgentPrincipal) (request_id name : String)
    (arguments : Fields) (server_id : Option String) (g : Gateway) where
  abbrev pub call : Result CallError ToolCallResult × Gateway
  call = call_tool w c p request_id name arguments server_id g

  abbrev pub target_at : RegistryEntry → String → Target
  target_at e raw = target p request_id arguments (e, raw)

  -- The name resolves to the entry of an enabled server and to the tool name that goes out to it.
  -- Whether that server lists such a tool is not asked: every name that starts with the prefix of a
  -- server resolves, and so does every name that comes with the id of a server.
  abbrev pub ResolvesTo : RegistryEntry → String → Type 0
  ResolvesTo e raw = (resolve name server_id g.registry ≡ ok (e, raw)) × (e.server.enabled ≡ true)

  pub call_tool-steps :
      (e : RegistryEntry) (raw : String) → ResolvesTo e raw → call ≡ steps w (target_at e raw) c g
  unfolding call_tool
  call_tool-steps e raw h = ground arith

  call_tool-cases :
      ((e : RegistryEntry) × (raw : String) × ResolvesTo e raw)
      ⊎ ((x : CallError) × (call ≡ (err x, g)))
  unfolding call_tool
  call_tool-cases = elim (Result-cases (resolve name server_id g.registry)) [
    | inl (x, h) ↦ inr (x, ground arith)
    | inr (a, h) ↦ elim (Bool-cases a.0.server.enabled) [
      | inl on ↦ inl (a.0, a.1, (h, on))
      | inr off ↦ inr (orchestration_error (server_disabled a.0.server.id) 503, ground arith)
    ]
  ]

  -- A call sends nothing upstream, or the name resolves to an enabled server and a tool name, which
  -- that server need not list, the caller is authorized, the rate limiter, the guardrails and the
  -- schema let the call through, and it sends one request: to that server, with that tool name and
  -- the redacted arguments.
  pub call_tool-sends :
      (call.1.sent ≡ g.sent)
      ⊎ ((e : RegistryEntry) × (raw : String) × ResolvesTo e raw
          × Permitted w (target_at e raw) c g
          × (call.1.sent
              ≡ sent_request w (target_at e raw) (outgoing w (target_at e raw) c g) ∷ g.sent))
  call_tool-sends = elim call_tool-cases [
    | inr (x, h) ↦ inl (ap (λ r. r.1.sent) h)
    | inl (e, raw, h) ↦
        let t = target_at e raw in
        let at = call_tool-steps e raw h in
        elim (steps_lem w t c g) [
          | inr (x, g', k, _, s) ↦ inl (ap (λ r. r.1.sent) (at ∙ s) ∙ k.6)
          | inl (g', q, k, _, s) ↦ elim (forward-sent w t c g') [
            | inl f ↦ inl (ap (λ r. r.1.sent) (at ∙ s) ∙ f ∙ k.6)
            | inr f ↦ inr (e, raw, h, q, ap (λ r. r.1.sent) (at ∙ s) ∙ (f ∙ rw (k.3, k.6) refl))
          ]
        ]
  ]

  -- A call that returns a result, from the cache or from the upstream, has passed every check.
  pub call_tool-Permitted :
      (r : ToolCallResult)
      → call.0 ≡ ok r
      → (e : RegistryEntry) × (raw : String) × ResolvesTo e raw × Permitted w (target_at e raw) c g
  call_tool-Permitted r h = elim call_tool-cases [
    | inr (x, f) ↦ absurd (ok≢err r x h (ap (λ r. r.0) f))
    | inl (e, raw, res) ↦ elim (steps_lem w (target_at e raw) c g) [
      | inl (g', q, k, _, s) ↦ (e, raw, res, q)
      | inr (x, g', k, _, s) ↦ absurd (ok≢err r x h (ap (λ r. r.0) (call_tool-steps e raw res ∙ s)))
    ]
  ]

  -- A call of a mutable tool neither reads nor changes the cache.
  pub call_tool-mutable :
      (e : RegistryEntry) (raw : String)
      → ResolvesTo e raw
      → elem raw e.server.mutable_tools ≡ true
      → call.1.cache ≡ g.cache
  unfolding target
  call_tool-mutable e raw h m = elim (steps_lem w (target_at e raw) c g) [
    | inr (x, g', k, _, s) ↦ ap (λ r. r.1.cache) (call_tool-steps e raw h ∙ s) ∙ k.5
    | inl (g', q, k, _, s) ↦
        ap (λ r. r.1.cache) (call_tool-steps e raw h ∙ s)
        ∙ forward-cache w (target_at e raw) c g' m
        ∙ k.5
  ]
