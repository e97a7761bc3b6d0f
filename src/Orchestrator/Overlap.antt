-- ===== src/Orchestrator/Overlap.antt =====
-- Calls that overlap: `call_tool` in two parts, up to the await of the upstream's answer and from
-- there on. The locks of the rate limiter and of the cache are never held across an await, so that
-- this is the only point at which another call can come between. In between, the gateway may begin
-- and finish other calls, the registry may change, and a reload may swap the policies.
pub mod Split
pub mod Sends
pub mod Settles
mod Tests
use mcp_gateway_python.Webhooks.Dispatcher.{WebhookDispatcher}
use mcp_gateway_python.Schema.{ToolSchemaValidator}
use mcp_gateway_python.Registry.Servers.{ServerRegistry}
use mcp_gateway_python.Cache.Tools.{ToolCache}
use mcp_gateway_python.RateLimit.Limiter.{RateLimiter}
use mcp_gateway_python.Guardrails.Rules.{GuardrailsPolicy}
use mcp_gateway_python.Json.{Fields, Value, dict}
use mcp_gateway_python.Audit.Store.{flush}
use mcp_gateway_python.Redaction.Strings.{RedactionPolicy}
use mcp_gateway_python.Orchestrator.Call.{after_upstream, checked, fields_of, build_manifest}
use mcp_gateway_python.Orchestrator.Steps.{
  Target, look_up, resolve, replied, sent_request, target, result,
}
use mcp_gateway_python.Orchestrator.Gateway.{
  World, ToolCallResult, Gateway, Clock, Sent, CallError, UpstreamReply, orchestration_error,
  ToolManifest, server_disabled,
}
use mcp_gateway_python.Auth.Authorizer.{AuthPolicy, AgentPrincipal}
use mcp_gateway_python.Redaction.Walk.{redact, request}
use mcp_gateway_python.Prelude.{
  none, some, inl, inr, List, Result, ◌∷◌, ok, Bool, String, Option, err, if◌then◌else◌, not, true,
  ℕ, map_option,
}

-- The arguments of a call, with the readings of its clock.
pub record Call : Type 0 where
  pub clock : Clock
  pub principal : AgentPrincipal
  pub request_id : String
  pub name : String
  pub arguments : Fields
  pub server_id : Option String

-- A call that awaits its upstream: its local variables at that point.
pub record Pending : Type 0 where
  pub target : Target
  pub clock : Clock
  pub redacted_args : Fields
  pub req_redacted : Bool

-- How the first part ends, unless it raises: with the cached result, or at the await.
pub data Begun : Type 0 where
  hit : ToolCallResult → Begun
  waiting : Pending → Begun

module _ (w : World) where
  abbrev pub request_of : Pending → Sent
  request_of p = sent_request w p.target p.redacted_args

  -- From the lookup in the cache to the await.
  unfoldable pub ask :
      Target → Clock → Fields → Bool → Option Value × Gateway → Result CallError Begun × Gateway
  ask t c args redacted (some v, g) = (ok (hit (result w t v 0 redacted true)), g)
  ask t c args redacted (none, g) =
      let p : Pending = record {
        target = t;
        clock = c;
        redacted_args = args;
        req_redacted = redacted;
      } in
      (ok (waiting p), record g { sent = request_of p ∷ g.sent })

  -- From the redaction of the request to the await.
  unfoldable pub depart : Target → Clock → Gateway → Result CallError Begun × Gateway
  unfolding ask look_up
  depart t c g =
      let (v, redacted) = redact g.redaction w.engine request (dict t.arguments) in
      ask t c (fields_of v) redacted (look_up w t c (fields_of v) g)

  -- `call_tool` up to the await.
  unfoldable pub begin : Call → Gateway → Result CallError Begun × Gateway
  unfolding depart checked resolve target
  begin q g = elim (resolve q.name q.server_id g.registry) [
    | err e ↦ (err e, g)
    | ok (entry, raw) ↦
        if not entry.server.enabled
        then (err (orchestration_error (server_disabled entry.server.id) 503), g)
        else (let t = target q.principal q.request_id q.arguments (entry, raw) in
            checked w t q.clock (depart t q.clock) g)
  ]

  -- `call_tool` from the upstream's answer on.
  unfoldable pub answer :
      Pending → UpstreamReply → Gateway → Result CallError ToolCallResult × Gateway
  unfolding after_upstream replied
  answer p reply g =
      after_upstream w p.target p.clock p.redacted_args p.req_redacted
        (replied w p.target reply p.clock g)

-- The gateway with the calls that await their upstreams.
pub record Flight : Type 0 where
  pub gateway : Gateway
  pub pending : List Pending

-- The calls that wait once a call has begun.
unfoldable pub join : Result CallError Begun → List Pending → List Pending
join (ok (waiting p)) ps = p ∷ ps
join (ok (hit _)) ps = ps
join (err _) ps = ps

-- A call that waits, and the others.
pub data Picks : Pending → List Pending → List Pending → Type 0 where
  here : (p : Pending) (ps : List Pending) → Picks p (p ∷ ps) ps
  there : (p x : Pending) (ps rest : List Pending) → Picks p ps rest → Picks p (x ∷ ps) (x ∷ rest)

-- What a reload puts into the orchestrator.
pub record Policies : Type 0 where
  pub auth : AuthPolicy
  pub redaction : RedactionPolicy
  pub safety : GuardrailsPolicy
  pub schema_validator : Option ToolSchemaValidator
  pub webhook_dispatcher : Option WebhookDispatcher
  pub rate_limiter : Option RateLimiter
  pub cache : Option (ToolCache ToolManifest)

module _ (w : World) where
  -- One step: a call begins, the answer to any waiting call arrives, the registry becomes whatever it
  -- becomes, a reload swaps the policies, a manifest is built, or the audit store writes a batch.
  pub data Step : Flight → Flight → Type 0 where
    begins :
        (q : Call) (s : Flight)
        → Step s (record {
          gateway = (begin w q s.gateway).1;
          pending = join (begin w q s.gateway).0 s.pending;
        })
    answers :
        (p : Pending) (rest : List Pending) (reply : UpstreamReply) (s : Flight)
        → Picks p s.pending rest
        → Step s (record { gateway = (answer w p reply s.gateway).1; pending = rest })
    registers :
        (r : ServerRegistry) (s : Flight)
        → Step s (record s { gateway = record s.gateway { registry = r } })
    swaps :
        (n : Policies) (s : Flight)
        → Step s (record s {
          gateway = record s.gateway {
            auth = n.auth;
            redaction = n.redaction;
            safety = n.safety;
            schema_validator = n.schema_validator;
            webhook_dispatcher = n.webhook_dispatcher;
            rate_limiter = n.rate_limiter;
            cache = n.cache;
          };
        })
    lists :
        (tag : Option String) (now : ℕ) (s : Flight)
        → Step s (record s { gateway = (build_manifest tag now s.gateway).1 })
    flushes :
        (committed : Bool) (s : Flight)
        → Step s (record s {
          gateway = record s.gateway { audit = map_option (flush committed) s.gateway.audit };
        })

  pub data Reach : Flight → Flight → Type 0 where
    start : (s : Flight) → Reach s s
    more : (s t u : Flight) → Reach s t → Step t u → Reach s u
