-- ===== src/Orchestrator/Call.antt =====
-- `call_tool` and `build_manifest`.
use mcp_gateway_python.Prelude.{
  ℕ, Result, Bool, Option, String, ◌||◌, List, true, ok, some, err, ◌==◌, if◌then◌else◌, ◌∷◌, none,
  elem, ◌&&◌, not, false, ◌++◌, suc, [],
}
use mcp_gateway_python.Json.{Value, dict, Fields, no_fields}
use mcp_gateway_python.Auth.Authorizer.{AgentPrincipal}
use mcp_gateway_python.Redaction.Walk.{redact, request, response}
use mcp_gateway_python.Webhooks.Dispatcher.{tool_call_ok}
use mcp_gateway_python.Registry.Servers.{
  ServerRegistry, RegistryEntry, ToolDefinition, enabled_entries,
}
use mcp_gateway_python.Cache.Tools.{get_manifest, set_manifest}
use mcp_gateway_python.Orchestrator.Gateway.{
  Gateway, World, Clock, CallError, orchestration_error, server_disabled, ToolCallResult,
  ToolManifest,
}
use mcp_gateway_python.Orchestrator.Steps.{
  resolve, Target, target, authorize, limit, guard, validate_schema, look_up, call_upstream, store,
  result, ok_outcome, emit_audit, notify,
}

-- Redaction of a dict gives a dict.
abbrev pub fields_of : Value → Fields
fields_of (dict fs) = fs
fields_of _ = no_fields

module _ (w : World) (t : Target) (c : Clock) where
  -- Steps 7 and 8 and the success that they end in.
  unfoldable pub finish :
      Fields → Bool → Value → Gateway → Result CallError ToolCallResult × Gateway
  unfolding store emit_audit notify
  finish args req_redacted raw g =
      let (clean, resp_redacted) = redact g.redaction w.engine response raw in
      let was = req_redacted || resp_redacted in
      let g' =
        notify w t tool_call_ok none
          (emit_audit w t (ok_outcome w t c.elapsed was) (store w t c args clean g)) in
      (ok (result w t clean c.elapsed was false), g')

  -- What follows the call of the upstream, unless it raised.
  unfoldable pub after_upstream :
      Fields → Bool → Result CallError Value × Gateway → Result CallError ToolCallResult × Gateway
  unfolding finish
  after_upstream args req_redacted (err e, g) = (err e, g)
  after_upstream args req_redacted (ok raw, g) = finish args req_redacted raw g

  -- From the lookup in the cache on.
  unfoldable pub serve :
      Fields → Bool → Option Value × Gateway → Result CallError ToolCallResult × Gateway
  unfolding after_upstream call_upstream
  serve args req_redacted (some v, g) = (ok (result w t v 0 req_redacted true), g)
  serve args req_redacted (none, g) = after_upstream args req_redacted (call_upstream w t c args g)

  -- From the redaction of the request on.
  unfoldable pub forward : Gateway → Result CallError ToolCallResult × Gateway
  unfolding serve look_up
  forward g =
      let (v, redacted) = redact g.redaction w.engine request (dict t.arguments) in
      serve (fields_of v) redacted (look_up w t c (fields_of v) g)

  -- A step, and the rest of the call unless the step raised.
  unfoldable pub then_do :
      {A : Type 0}
      → Result CallError (Unit {0}) × Gateway
      → (Gateway → Result CallError A × Gateway)
      → Result CallError A × Gateway
  then_do (ok _, g) k = k g
  then_do (err e, g) k = (err e, g)

  -- The checks 1 to 4, and what follows where each of them lets the call through.
  unfoldable pub checked :
      {A : Type 0}
      → (Gateway → Result CallError A × Gateway)
      → Gateway
      → Result CallError A × Gateway
  unfolding then_do authorize limit guard validate_schema
  checked k g = then_do (authorize w t g) (λ g1.
      then_do (limit w t c g1)
        (λ g2. then_do (guard w t g2) (λ g3. then_do (validate_schema w t g3) k)))

  -- The steps of a call to an enabled server.
  unfoldable pub steps : Gateway → Result CallError ToolCallResult × Gateway
  unfolding checked forward
  steps g = checked forward g

-- `call_tool`
unfoldable pub call_tool :
    World
    → Clock
    → AgentPrincipal
    → String
    → String
    → Fields
    → Option String
    → Gateway
    → Result CallError ToolCallResult × Gateway
unfolding steps resolve target
call_tool w c principal request_id name arguments server_id g =
    elim (resolve name server_id g.registry) [
      | err e ↦ (err e, g)
      | ok (entry, raw) ↦
          if not entry.server.enabled
          then (err (orchestration_error (server_disabled entry.server.id) 503), g)
          else steps w (target principal request_id arguments (entry, raw)) c g
    ]

-- Whether an entry has the tag that is asked for. An empty tag asks for none.
unfoldable pub tagged : Option String → RegistryEntry → Bool
tagged none e = true
tagged (some tag) e = tag == "" || elem tag e.server.tags

-- The tools of the entries that are listed, and the number of those entries.
unfoldable pub collect : Option String → List RegistryEntry → List ToolDefinition × ℕ
collect tag [] = ([], 0)
collect tag (e ∷ es) =
    let (tools, servers) = collect tag es in
    if e.healthy && tagged tag e then (e.tools ++ tools, suc servers) else (tools, servers)

-- The manifest of the registry, for a tag or for all servers.
unfoldable pub manifest_of : Option String → ℕ → ServerRegistry → ToolManifest
unfolding collect tagged
manifest_of tag now r =
    let (tools, servers) = collect tag (enabled_entries r) in
    record { tools = tools; generated_at = now; server_count = servers }

-- `build_manifest`: only the manifest of all servers is read from the cache or stored in it.
unfoldable pub build_manifest : Option String → ℕ → Gateway → ToolManifest × Gateway
unfolding manifest_of
build_manifest (some tag) now g = (manifest_of (some tag) now g.registry, g)
build_manifest none now g = elim g.cache [
  | none ↦ (manifest_of none now g.registry, g)
  | some k ↦
      let (cached, k') = get_manifest now k in
      elim cached [
        | some m ↦ (m, record g { cache = some k' })
        | none ↦
            let m = manifest_of none now g.registry in
            (m, record g { cache = some (set_manifest m now k') })
      ]
]
