-- ===== src/Orchestrator/Repeat.antt =====
-- A call that repeats one whose result was cached.
use mcp_gateway_python.Registry.Servers.{RegistryEntry}
use mcp_gateway_python.Orchestrator.Checks.{Permitted}
use mcp_gateway_python.Auth.Authorizer.{AgentPrincipal}
use mcp_gateway_python.Prelude.{
  String, ◌≡◌, ◌≢◌, true, false, none, some, Result, ok, arith, ℕ, Option, ◌≤◌, ◌+◌, ◌∙◌,
}
use mcp_gateway_python.Json.{Value, Fields, dict, null}
use mcp_gateway_python.Redaction.Strings.{RedactionPolicy}
use mcp_gateway_python.Redaction.Walk.{redact, request, response}
use mcp_gateway_python.Cache.Tools.{
  ToolCache, get_result, set_result, Cacheable, tool_ttl, get_result-set_result,
}
use mcp_gateway_python.Orchestrator.Gateway.{
  CallError, ToolCallResult, Gateway, World, Clock, content, ToolManifest,
}
use mcp_gateway_python.Orchestrator.Steps.{
  Target, look_up, not_null, call_upstream, replied, store, sent_request, result, notify,
  emit_audit, count, target,
}
use mcp_gateway_python.Orchestrator.Call.{fields_of, forward, serve, after_upstream, finish}
use mcp_gateway_python.Orchestrator.Returns.{steps-ok, throttled}
use mcp_gateway_python.Orchestrator.Safety.{outgoing, call, ResolvesTo, call_tool-steps}

module _ (w : World) (t : Target) (c : Clock) where
  get_result-cfg :
      (name : String) (args : Fields) (now : ℕ) (k : ToolCache ToolManifest)
      → (get_result w.cache_hash name args now k).1.cfg ≡ k.cfg
  unfolding get_result
  get_result-cfg name args now k = ground arith

  -- The content of an answer, as it is returned and stored.
  abbrev pub cleaned : Gateway → Value → Value
  cleaned g v = (redact g.redaction w.engine response v).0

  -- The lookup of a call finds nothing.
  abbrev pub Misses : Gateway → Type 0
  Misses g = (look_up w t c (outgoing w t c g) g).0 ≡ none

  Misses-throttled : (g : Gateway) → Misses g → Misses (throttled w t c g)
  unfolding look_up
  Misses-throttled g h = ground arith

  forward-stores :
      (g : Gateway) (k : ToolCache ToolManifest) (v : Value)
      → t.mutable_tool ≡ false
      → g.cache ≡ some k
      → Misses g
      → w.upstream (sent_request w t (outgoing w t c g)) ≡ content v
      → ((forward w t c g).1.cache
          ≡ some (
              set_result w.cache_hash t.qualified
                (outgoing w t c g)
                (cleaned g v)
                c.cache_write
                (get_result w.cache_hash t.qualified (outgoing w t c g) c.cache_read k).1))
        × ((forward w t c g).1.redaction ≡ g.redaction)
        × ((forward w t c g).1.registry ≡ g.registry)
  unfolding forward serve look_up after_upstream call_upstream replied finish store count emit_audit
      notify
  forward-stores g k v m e n u = ground arith

  forward-hit :
      (g : Gateway) (r : RedactionPolicy) (k : ToolCache ToolManifest) (v : Value)
      → g.redaction ≡ r
      → t.mutable_tool ≡ false
      → g.cache ≡ some k
      → (get_result w.cache_hash t.qualified
          (fields_of (redact r w.engine request (dict t.arguments)).0)
          c.cache_read
          k).0
        ≡ some v
      → v ≢ null
      → ((forward w t c g).0
          ≡ ok (result w t v 0 (redact r w.engine request (dict t.arguments)).1 true))
        × ((forward w t c g).1.sent ≡ g.sent)
  unfolding forward serve look_up not_null
  forward-hit g r k v red m e f n = ground arith

  -- The first call of a tool whose result is kept: it passes every check, the cache has nothing for
  -- it, and the upstream answers it with content that is not null when it is redacted.
  abbrev pub Fills : Gateway → ToolCache ToolManifest → Value → Type 0
  Fills g k v =
      Permitted w t c g
      × (t.mutable_tool ≡ false)
      × (g.cache ≡ some k)
      × Cacheable w.cache_hash k t.qualified
      × Misses g
      × (w.upstream (sent_request w t (outgoing w t c g)) ≡ content v)
      × (cleaned g v ≢ null)

-- The same tool and arguments, for any caller, once a call has filled the cache.
module _ (w : World) (c d : Clock) (p q : AgentPrincipal) (rid sid : String) (name : String)
    (arguments : Fields) (server_id : Option String) (g : Gateway) where
  abbrev pub first : Result CallError ToolCallResult × Gateway
  first = call w c p rid name arguments server_id g

  abbrev pub second : Result CallError ToolCallResult × Gateway
  second = call w d q sid name arguments server_id first.1

  -- After a call has filled the cache, the same call, by whomever it is made, if it passes the checks
  -- before the stored result's lifetime is over, returns the stored content, marked as cached, and
  -- sends nothing upstream.
  pub call_tool-repeats :
      (e : RegistryEntry) (raw : String) (k : ToolCache ToolManifest) (v : Value)
      → ResolvesTo w c p rid name arguments server_id g e raw
      → Fills w (target p rid arguments (e, raw)) c g k v
      → Permitted w (target q sid arguments (e, raw)) d first.1
      → d.cache_read ≤ c.cache_write + tool_ttl k.cfg (target p rid arguments (e, raw)).qualified
      → (second.0
          ≡ ok (
              result w
                (target q sid arguments (e, raw))
                (cleaned w (target p rid arguments (e, raw)) c g v)
                0
                (redact g.redaction w.engine request (dict arguments)).1
                true))
        × (second.1.sent ≡ first.1.sent)
  unfolding target
  call_tool-repeats e raw k v h f s lt =
      let t = target p rid arguments (e, raw) in
      let u = target q sid arguments (e, raw) in
      let l = throttled w t c g in
      let args = outgoing w t c l in
      let clean = cleaned w t c l v in
      let at : first ≡ forward w t c l =
        call_tool-steps w c p rid name arguments server_id g e raw h ∙ steps-ok w t c g f.0 in
      let (stored, redaction, registry) =
        forward-stores w t c l k v f.1 f.2 (Misses-throttled w t c g f.4) f.5 in
      let same : ResolvesTo w d q sid name arguments server_id first.1 e raw =
        rw (at, registry) h in
      let kept = (get_result w.cache_hash t.qualified args c.cache_read k).1 in
      let cfg : kept.cfg ≡ k.cfg = get_result-cfg w t c t.qualified args c.cache_read k in
      let cached : first.1.cache
          ≡ some (set_result w.cache_hash t.qualified args clean c.cache_write kept) =
        rw at stored in
      let unredacted : first.1.redaction ≡ g.redaction = rw at redaction in
      let found =
        get_result-set_result w.cache_hash kept t.qualified args clean c.cache_write d.cache_read
          (rw cfg f.3) in
      rw
        (
          call_tool-steps w d q sid name arguments server_id first.1 e raw same,
          steps-ok w u d first.1 s,
        )
        (forward-hit w u d (throttled w u d first.1) g.redaction _ clean unredacted f.1 cached
          (found ∙ ground arith) f.6)
