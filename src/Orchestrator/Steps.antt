-- ===== src/Orchestrator/Steps.antt =====
-- `_resolve`, and the steps of `call_tool` one by one.
use mcp_gateway_python.Prelude.{
  ℕ, Result, String, Option, List, Bool, ok, true, elem, err, some, ◌∷◌, none, if◌then◌else◌, false,
  ◌==◌, ◌+◌, ◌||◌, [], map_option,
}
use mcp_gateway_python.Prelude.Text.{◌<>◌, starts_with, drop_chars, chars}
use mcp_gateway_python.Json.{Value, null, Fields}
use mcp_gateway_python.Cache.Tools.{get_result, set_result}
use mcp_gateway_python.RateLimit.Limiter.{
  CheckError, rate_limit_exceeded, zero_division_error, check,
}
use mcp_gateway_python.Auth.Authorizer.{AgentPrincipal, authorize_tool_call}
use mcp_gateway_python.Guardrails.Rules
use mcp_gateway_python.Guardrails.Rules.{GuardrailViolation}
use mcp_gateway_python.Schema.{validate, ValidateError, schema_validation_error, library_error}
use mcp_gateway_python.Audit.Store.{AuditEntry, enqueue}
use mcp_gateway_python.Webhooks.Dispatcher.{
  WebhookDispatcher, EventType, dispatch, guardrail_block, tool_call_ok, tool_call_error,
}
use mcp_gateway_python.Webhooks.Dispatcher
use mcp_gateway_python.Registry.Servers.{
  ServerRegistry, RegistryEntry, ToolDefinition, prefix_of, get,
}
use mcp_gateway_python.Registry.Lookup.{find_by_qualified_tool}
use mcp_gateway_python.Orchestrator.Gateway.{
  Gateway, World, Clock, Sent, Counted, Failure, CallError, orchestration_error, uncaught,
  unknown_server, unresolved_tool, server_disabled, denied, limited, blocked, upstream_error,
  unexpected, UpstreamReply, content, upstream_failed, raised, ToolCallResult, ToolManifest,
}
use mcp_gateway_python.Orchestrator.Gateway

unfoldable pub resolve_at :
    String → Option RegistryEntry → String → Result CallError (RegistryEntry × String)
resolve_at sid none name = err (orchestration_error (unknown_server sid) 404)
resolve_at sid (some e) name =
    let prefix = prefix_of e.server in
    ok (e, if starts_with name (prefix <> ".") then drop_chars (chars prefix + 1) name else name)

-- `_resolve`
unfoldable pub resolve :
    String → Option String → ServerRegistry → Result CallError (RegistryEntry × String)
unfolding resolve_at
resolve name (some sid) r = resolve_at sid (get sid r) name
resolve name none r = elim (find_by_qualified_tool name r) [
  | none ↦ err (orchestration_error (unresolved_tool name) 404)
  | some found ↦ ok found
]

-- What a call is about, once it is resolved.
pub record Target : Type 0 where
  pub entry : RegistryEntry
  pub raw_tool : String
  pub qualified : String
  pub mutable_tool : Bool
  pub principal : AgentPrincipal
  pub arguments : Fields
  pub request_id : String

unfoldable pub target : AgentPrincipal → String → Fields → RegistryEntry × String → Target
target p rid args (e, raw) = record {
  entry = e;
  raw_tool = raw;
  qualified = prefix_of e.server <> "." <> raw;
  mutable_tool = elem raw e.server.mutable_tools;
  principal = p;
  arguments = args;
  request_id = rid;
}

-- The part of an audit record that a step sets over the shared one.
pub record Outcome : Type 0 where
  pub status : String
  pub is_error : Bool
  pub error_detail : Option String
  pub latency_ms : ℕ
  pub guardrail_blocked : Bool
  pub auth_denied : Bool
  pub rate_limited : Bool
  pub redacted : Bool

abbrev pub failing : String → String → Outcome
failing status text = record {
  status = status;
  is_error = true;
  error_detail = some text;
  latency_ms = 0;
  guardrail_blocked = false;
  auth_denied = false;
  rate_limited = false;
  redacted = false;
}

module _ (w : World) (t : Target) where
  unfoldable pub audit_entry : Outcome → AuditEntry
  audit_entry o = record {
    request_id = t.request_id;
    agent_id = t.principal.agent_id;
    server_id = t.entry.server.id;
    tool_name = t.raw_tool;
    qualified_name = t.qualified;
    mutable_tool = t.mutable_tool;
    status = o.status;
    is_error = o.is_error;
    error_detail = o.error_detail;
    latency_ms = o.latency_ms;
    guardrail_blocked = o.guardrail_blocked;
    auth_denied = o.auth_denied;
    rate_limited = o.rate_limited;
    redacted = o.redacted;
    arguments_hash = w.audit_hash t.arguments;
  }

  -- `_emit_audit`
  unfoldable pub emit_audit : Outcome → Gateway → Gateway
  emit_audit o g = record g { audit = map_option (enqueue (audit_entry o)) g.audit }

  -- `TOOL_CALLS_TOTAL.labels(…).inc()`
  unfoldable pub count : String → Gateway → Gateway
  count status g = record g {
    counted =
        record { server_id = t.entry.server.id; tool = t.raw_tool; status = status } ∷ g.counted;
  }

  -- `self.webhook_dispatcher.dispatch(…)`, if there is a dispatcher.
  unfoldable pub notify : EventType → Option Failure → Gateway → Gateway
  notify event why g = record g {
    webhook_dispatcher =
        map_option
          (dispatch event (w.details t.principal.agent_id t.entry.server.id t.raw_tool why))
          g.webhook_dispatcher;
  }

  -- 1) Authorization
  unfoldable pub authorize : Gateway → Result CallError (Unit {0}) × Gateway
  unfolding emit_audit count
  authorize g =
      elim (authorize_tool_call g.auth t.principal t.raw_tool t.qualified t.mutable_tool) [
        | ok _ ↦ (ok tt, g)
        | err d ↦
            let o = record (failing "auth_denied" (w.message (denied d))) { auth_denied = true } in
            (err (orchestration_error (denied d) 403), emit_audit o (count "auth_denied" g))
      ]

  unfoldable pub limited_by :
      Result CheckError (Unit {0}) → Gateway → Result CallError (Unit {0}) × Gateway
  unfolding emit_audit count
  limited_by (ok _) g = (ok tt, g)
  limited_by (err (rate_limit_exceeded scope retry)) g =
      let e = limited (rate_limit_exceeded scope retry) in
      let o = record (failing "rate_limited" (w.message e)) { rate_limited = true } in
      (err (orchestration_error e 429), emit_audit o (count "rate_limited" g))
  limited_by (err zero_division_error) g = (err (uncaught (limited zero_division_error)), g)

  -- 2) Rate limiting
  unfoldable pub limit : Clock → Gateway → Result CallError (Unit {0}) × Gateway
  unfolding limited_by
  limit c g = elim g.rate_limiter [
    | none ↦ (ok tt, g)
    | some l ↦
        let (r, l') = check t.principal.agent_id t.qualified c.agent_check c.tool_check l in
        limited_by r (record g { rate_limiter = some l' })
  ]

  -- 3) Guardrails
  unfoldable pub guard : Gateway → Result CallError (Unit {0}) × Gateway
  unfolding emit_audit count notify
  guard g = elim (Rules.check w.lower w.search g.safety t.raw_tool t.arguments) [
    | ok _ ↦ (ok tt, g)
    | err v ↦
        let o = record (failing "guardrail_blocked" (w.message (blocked v))) {
          guardrail_blocked = true;
        } in
        (
          err (orchestration_error (blocked v) 422),
          notify guardrail_block (some (blocked v)) (emit_audit o (count "guardrail_blocked" g)),
        )
  ]

  -- The schema of the first tool of the entry with the raw or the qualified name.
  unfoldable pub schema_of : List ToolDefinition → Option Fields
  schema_of [] = none
  schema_of (d ∷ ds) =
      if (d.name == t.qualified) || (d.name == t.raw_tool)
      then some d.input_schema
      else schema_of ds

  unfoldable pub validated_by :
      Result ValidateError (Unit {0}) → Gateway → Result CallError (Unit {0}) × Gateway
  unfolding emit_audit count notify
  validated_by (ok _) g = (ok tt, g)
  validated_by (err (schema_validation_error e)) g =
      let f = Gateway.schema_invalid (schema_validation_error e) in
      (
        err (orchestration_error f 422),
        notify Dispatcher.schema_invalid (some f)
            (emit_audit (failing "schema_invalid" (w.message f)) (count "schema_invalid" g)),
      )
  validated_by (err library_error) g = (err (uncaught (Gateway.schema_invalid library_error)), g)

  -- 4) JSON Schema validation
  unfoldable pub validate_schema : Gateway → Result CallError (Unit {0}) × Gateway
  unfolding validated_by schema_of
  validate_schema g = elim g.schema_validator [
    | none ↦ (ok tt, g)
    | some v ↦ validated_by (validate w.draft7 v t.arguments (schema_of t.entry.tools)) g
  ]

  -- 6) Cache lookup, for a tool that is not mutable. A stored null reads as a miss.
  unfoldable pub not_null : Option Value → Option Value
  not_null (some null) = none
  not_null o = o

  unfoldable pub look_up : Clock → Fields → Gateway → Option Value × Gateway
  unfolding not_null
  look_up c args g = elim g.cache [
    | none ↦ (none, g)
    | some k ↦
        if t.mutable_tool
        then (none, g)
        else (let (v, k') = get_result w.cache_hash t.qualified args c.cache_read k in
            (not_null v, record g { cache = some k' }))
  ]

  abbrev pub sent_request : Fields → Sent
  sent_request args = record {
    server_id = t.entry.server.id;
    tool = t.raw_tool;
    arguments = args;
    agent_id = t.principal.agent_id;
  }

  unfoldable pub call_failed :
      String → Failure → ℕ → Clock → Gateway → Result CallError Value × Gateway
  unfolding emit_audit count notify
  call_failed status f code c g =
      let o = record (failing status (w.message f)) { latency_ms = c.elapsed } in
      (
        err (orchestration_error f code),
        notify tool_call_error (some f) (emit_audit o (count status g)),
      )

  unfoldable pub replied : UpstreamReply → Clock → Gateway → Result CallError Value × Gateway
  unfolding call_failed count
  replied (content v) c g = (ok v, count "ok" g)
  replied (upstream_failed text) c g = call_failed "upstream_error" (upstream_error text) 502 c g
  replied (raised text) c g = call_failed "error" (unexpected text) 500 c g

  -- The call of the upstream, with its two handlers.
  unfoldable pub call_upstream : Clock → Fields → Gateway → Result CallError Value × Gateway
  unfolding replied
  call_upstream c args g =
      replied (w.upstream (sent_request args)) c (record g { sent = sent_request args ∷ g.sent })

  -- 8) Store the result, for a tool that is not mutable.
  unfoldable pub store : Clock → Fields → Value → Gateway → Gateway
  store c args v g = elim g.cache [
    | none ↦ g
    | some k ↦
        if t.mutable_tool
        then g
        else record g { cache = some (set_result w.cache_hash t.qualified args v c.cache_write k) }
  ]

  abbrev pub result : Value → ℕ → Bool → Bool → ToolCallResult
  result v latency was_redacted from_cache = record {
    server_id = t.entry.server.id;
    tool = t.raw_tool;
    content = v;
    is_error = false;
    latency_ms = latency;
    redacted = was_redacted;
    cached = from_cache;
  }

  abbrev pub ok_outcome : ℕ → Bool → Outcome
  ok_outcome latency was_redacted = record {
    status = "ok";
    is_error = false;
    error_detail = none;
    latency_ms = latency;
    guardrail_blocked = false;
    auth_denied = false;
    rate_limited = false;
    redacted = was_redacted;
  }
