-- ===== src/Orchestrator/Checks.antt =====
-- The checks before the upstream is called: each one raises and writes its record, or lets the call
-- through and changes little.
use mcp_gateway_python.Orchestrator.Call.{steps, then_do, forward, checked}
use mcp_gateway_python.Prelude.{
  map_option, none, some, true, false, String, refl, ◌∙◌, Result, arith, Option, ◌≡◌, some, ok,
  none, err, inr, ◌⊎◌, inl, ℕ,
}
use mcp_gateway_python.RateLimit.Limiter.{RateLimiter, check}
use mcp_gateway_python.Auth.Authorizer.{authorize_tool_call}
use mcp_gateway_python.Guardrails.Rules
use mcp_gateway_python.Schema.{validate, ToolSchemaValidator}
use mcp_gateway_python.Audit.Store.{enqueue}
use mcp_gateway_python.Orchestrator.Gateway
use mcp_gateway_python.Orchestrator.Gateway.{
  Failure, orchestration_error, uncaught, unknown_server, unresolved_tool, server_disabled, denied,
  limited, blocked, upstream_error, unexpected, Gateway, World, Clock, CallError, ToolCallResult,
}
use mcp_gateway_python.Orchestrator.Steps.{
  Outcome, audit_entry, Target, authorize, limit, limited_by, guard, validate_schema, emit_audit,
  count, notify, schema_of, validated_by,
}

-- What the steps before the lookup leave as it is.
abbrev pub Keeps : Gateway → Gateway → Type 0
Keeps g g' =
    (g'.registry ≡ g.registry)
    × (g'.auth ≡ g.auth)
    × (g'.safety ≡ g.safety)
    × (g'.redaction ≡ g.redaction)
    × (g'.schema_validator ≡ g.schema_validator)
    × (g'.cache ≡ g.cache)
    × (g'.sent ≡ g.sent)

Keeps-trans : (g h k : Gateway) → Keeps g h → Keeps h k → Keeps g k
Keeps-trans g h k a b =
    (b.0 ∙ a.0, b.1 ∙ a.1, b.2 ∙ a.2, b.3 ∙ a.3, b.4 ∙ a.4, b.5 ∙ a.5, b.6 ∙ a.6)

module _ (w : World) (t : Target) (c : Clock) where
  -- The rate limiter, if there is one, lets the call through.
  abbrev pub Admits : Option RateLimiter → Type 0
  Admits none = Unit {0}
  Admits (some l) = (check t.principal.agent_id t.qualified c.agent_check c.tool_check l).0 ≡ ok tt

  -- The schema of the tool, if it is checked, takes the arguments.
  abbrev pub Conforms : Option ToolSchemaValidator → Type 0
  Conforms none = Unit {0}
  Conforms (some v) = validate w.draft7 v t.arguments (schema_of w t t.entry.tools) ≡ ok tt

  -- The status that a failure is answered with.
  abbrev pub code_of : Failure → ℕ
  code_of (unknown_server _) = 404
  code_of (unresolved_tool _) = 404
  code_of (server_disabled _) = 503
  code_of (denied _) = 403
  code_of (limited _) = 429
  code_of (blocked _) = 422
  code_of (Gateway.schema_invalid _) = 422
  code_of (upstream_error _) = 502
  code_of (unexpected _) = 500

  abbrev pub status_of : Failure → String
  status_of (denied _) = "auth_denied"
  status_of (limited _) = "rate_limited"
  status_of (blocked _) = "guardrail_blocked"
  status_of (Gateway.schema_invalid _) = "schema_invalid"
  status_of (upstream_error _) = "upstream_error"
  status_of _ = "error"

  -- What the record of a failed call says.
  abbrev pub outcome_of : Failure → Outcome
  outcome_of f = record {
    status = status_of f;
    is_error = true;
    error_detail = some (w.message f);
    latency_ms = elim f [ upstream_error _ ↦ c.elapsed | unexpected _ ↦ c.elapsed | _ ↦ 0 ];
    guardrail_blocked = elim f [ blocked _ ↦ true | _ ↦ false ];
    auth_denied = elim f [ denied _ ↦ true | _ ↦ false ];
    rate_limited = elim f [ limited _ ↦ true | _ ↦ false ];
    redacted = false;
  }

  -- Every check lets the call through.
  abbrev pub Permitted : Gateway → Type 0
  Permitted g =
      (authorize_tool_call g.auth t.principal t.raw_tool t.qualified t.mutable_tool ≡ ok tt)
      × Admits g.rate_limiter
      × (Rules.check w.lower w.search g.safety t.raw_tool t.arguments ≡ ok tt)
      × Conforms g.schema_validator

  -- What a failure leaves in the audit log, and the status that it is answered with.
  abbrev pub Recorded : CallError → Gateway → Gateway → Type 0
  Recorded (orchestration_error f code) g g' =
      (code ≡ code_of f)
      × (g'.audit ≡ map_option (enqueue (audit_entry w t (outcome_of f))) g.audit)
  Recorded (uncaught f) g g' = g'.audit ≡ g.audit

  -- A step raises, or returns and then its condition holds.
  abbrev Step : (Gateway → Type 0) → Gateway → Result CallError (Unit {0}) × Gateway → Type 0
  Step P g (ok _, g') = P g' × Keeps g g' × (g'.audit ≡ g.audit)
  Step P g (err e, g') = Keeps g g' × Recorded e g g'

  authorize_lem :
      (g : Gateway)
      → Step
          (λ g'.
            (authorize_tool_call g.auth t.principal t.raw_tool t.qualified t.mutable_tool ≡ ok tt)
            × (g'.rate_limiter ≡ g.rate_limiter))
          g
          (authorize w t g)
  unfolding authorize emit_audit count
  authorize_lem g = ground arith

  limit_lem : (g : Gateway) → Step (λ _. Admits g.rate_limiter) g (limit w t c g)
  unfolding limit limited_by emit_audit count
  limit_lem g = ground arith

  guard_lem :
      (g : Gateway)
      → Step
          (λ _. Rules.check w.lower w.search g.safety t.raw_tool t.arguments ≡ ok tt)
          g
          (guard w t g)
  unfolding guard emit_audit count notify
  guard_lem g = ground arith

  validate_schema_lem :
      (g : Gateway) → Step (λ _. Conforms g.schema_validator) g (validate_schema w t g)
  unfolding validate_schema validated_by emit_audit count notify
  validate_schema_lem g = ground arith

  -- All checks return and the rest follows, or one raises.
  abbrev pub Ends :
      {A : Type 0}
      → (Gateway → Result CallError A × Gateway)
      → Type 0
      → Gateway
      → Result CallError A × Gateway
      → Type 0
  Ends k P g r =
      ((g' : Gateway) × P × Keeps g g' × (g'.audit ≡ g.audit) × (r ≡ k g'))
      ⊎ ((e : CallError) × (g' : Gateway) × Keeps g g' × Recorded e g g' × (r ≡ (err e, g')))

  pub Recorded-from :
      (e : CallError) (g h k : Gateway) → h.audit ≡ g.audit → Recorded e h k → Recorded e g k
  Recorded-from (orchestration_error f code) g h k a r = rw a at r
  Recorded-from (uncaught f) g h k a r = r ∙ a

  then_do_lem :
      {A : Type 0} {P : Gateway → Type 0} {Q : Type 0} (f : Gateway → Result CallError A × Gateway)
      (g h : Gateway) (m : Result CallError (Unit {0}) × Gateway)
      → (k : Gateway → Result CallError A × Gateway) → Keeps g h
      → h.audit ≡ g.audit
      → Step P h m
      → ((g' : Gateway) → P g' → Keeps g g' → g'.audit ≡ g.audit → Ends f Q g (k g'))
      → Ends f Q g (then_do w t c m k)
  unfolding then_do
  then_do_lem f g h (ok _, g') k a b s next = next g' s.0 (Keeps-trans g h g' a s.1) (s.2 ∙ b)
  then_do_lem f g h (err e, g') k a b s next =
      inr (e, g', Keeps-trans g h g' a s.0, Recorded-from e g h g' b s.1, refl)

  -- Every check lets the call through, and nothing that the rest reads has changed; or one raised.
  pub checked_lem :
      {A : Type 0} (f : Gateway → Result CallError A × Gateway) (g : Gateway)
      → Ends f (Permitted g) g (checked w t c f g)
  unfolding checked
  checked_lem f g =
      then_do_lem f g g (authorize w t g) _ (ground arith) refl (authorize_lem g)
        (λ g1 (a, l) k1 r1.
          then_do_lem f g g1 (limit w t c g1) _ k1 r1 (limit_lem g1) (λ g2 b k2 r2.
            then_do_lem f g g2 (guard w t g2) _ k2 r2 (guard_lem g2) (λ g3 d k3 r3.
              then_do_lem f g g3 (validate_schema w t g3) f k3 r3 (validate_schema_lem g3)
                (λ g4 v k4 r4.
                  inl (g4, (a, rw l at b, rw k2.2 at d, rw k3.4 at v), k4, r4, refl)))))

  pub steps_lem : (g : Gateway) → Ends (forward w t c) (Permitted g) g (steps w t c g)
  unfolding steps
  steps_lem g = checked_lem (forward w t c) g
