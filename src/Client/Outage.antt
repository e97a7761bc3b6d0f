-- ===== src/Client/Outage.antt =====
-- Requests whose calls fail one after another.
use mcp_gateway_python.Prelude.{
  none, map, ℕ, String, Option, some, Result, ok, err, ◌≡◌, refl, arith, List, [], ◌∷◌, ◌<◌, ◌≤◌,
  suc, ◌+◌, ap, ◌∙◌, ◌⊎◌, inl, inr, Bool-cases, Result-cases, leb,
}
use mcp_gateway_python.Breaker.{
  CircuitBreaker, opened, closed, before_call, on_failure, probe_at, CircuitOpenError,
}
use mcp_gateway_python.Credentials.Expand.{Environ}
use mcp_gateway_python.Client.Content.{
  UpstreamError, CallToolResult, extract_content, Tool, tool_to_dict,
}
use mcp_gateway_python.Client.Session.{
  McpClient, Session, Action, calling, listing, pinging, Failure, reset_session,
}
use mcp_gateway_python.Client.Calls.{Attempt, Run, guarded, call_tool, list_tools, ping, pinged}
use mcp_gateway_python.Client.Breaking.{attempt-cb, guarded-told, guarded-refused, refusal, told}
use mcp_gateway_python.Client.Wire.{Request, tool, tools, probe, close, step}
use mcp_gateway_python.Json.{Value, Fields}

-- The circuit has been open from a time after `since` on.
abbrev OpenSince : ℕ → CircuitBreaker → Type 0
OpenSince since b = (b.state ≡ opened) × (o : ℕ) × (b.opened_at ≡ some o) × (since ≤ o)

-- The circuit is open, or closed with `count` failures to come until it opens.
abbrev Failing : ℕ → ℕ → ℕ → CircuitBreaker → Type 0
Failing since timeout count b =
    (b.recovery_timeout ≡ timeout)
    × (OpenSince since b
        ⊎ ((b.state ≡ closed)
            × (b.failure_threshold ≤ b.failures + count)
            × (b.failures < b.failure_threshold)))

admitted_lem :
    (since timeout count now at : ℕ) (b : CircuitBreaker)
    → (before_call now b).0 ≡ ok tt
    → since ≤ at
    → Failing since timeout (suc count) b
    → Failing since timeout count (on_failure at (before_call now b).1)
unfolding before_call on_failure
admitted_lem since timeout count now at b go h (t, inl (o, d, e, l)) =
    (ground arith, inl (ground arith, at, ground arith, h))
admitted_lem since timeout count now at b go h (t, inr (c, f, l)) =
    elim (Bool-cases (leb b.failure_threshold (b.failures + 1))) [
      | inl trips ↦ (ground arith, inl (ground arith, at, ground arith, h))
      | inr stays ↦ (ground arith, inr (ground arith, ground arith, ground arith))
    ]

refused_lem :
    (since timeout count now : ℕ) (b : CircuitBreaker) (e : CircuitOpenError)
    → (before_call now b).0 ≡ err e
    → Failing since timeout (suc count) b
    → OpenSince since b × ((before_call now b).1 ≡ b) × (now < probe_at b)
unfolding before_call
refused_lem since timeout count now b e stop (t, inl (o, d, f, l)) =
    ((o, d, f, l), ground arith, ground arith)
refused_lem since timeout count now b e stop (t, inr (c, f, l)) = ground arith

-- A client with such a breaker.
abbrev Held : ℕ → ℕ → ℕ → McpClient → Type 0
Held since timeout count c = (b : CircuitBreaker) × (c.cb ≡ some b) × Failing since timeout count b

held_lem :
    (environ : Environ) {A B : Type 0} (act : Session → Action) (read : A → Result UpstreamError B)
    (agent : Option String) (since timeout count : ℕ) (t : Run A) (c : McpClient) (f : Failure)
    → Held since timeout (suc count) c
    → (guarded environ act read agent t c).0 ≡ err f
    → since ≤ t.failed_at
    → Held since timeout count (guarded environ act read agent t c).1
held_lem environ act read agent since timeout count t c f (b, h, g) fails l =
    elim (Result-cases (before_call t.gate_at b).0) [
      | inl (e, stop) ↦
          let (o, same, early) = refused_lem since timeout count t.gate_at b e stop g in
          let shut = guarded-refused environ act read agent t c b h o.0 early in
          (b, ap (λ r. r.1.cb) shut ∙ h, (g.0, inl o))
      | inr (u, go) ↦ (
        on_failure t.failed_at (before_call t.gate_at b).1,
        guarded-told environ act read agent t c b h go
            ∙ ap (λ r. some (told r t.failed_at (before_call t.gate_at b).1)) fails,
        admitted_lem since timeout count t.gate_at t.failed_at b go l g,
      )
    ]

Held-cb :
    (since timeout count : ℕ) (c d : McpClient)
    → d.cb ≡ c.cb
    → Held since timeout count c
    → Held since timeout count d
Held-cb since timeout count c d same (b, h, g) = (b, same ∙ h, g)

-- How many of the requests are calls, of a tool or of the list of tools: a probe and a close do not
-- ask the breaker.
abbrev pub calls_in : List Request → ℕ
calls_in [] = 0
calls_in (tool _ _ _ _ ∷ rs) = suc (calls_in rs)
calls_in (tools _ ∷ rs) = suc (calls_in rs)
calls_in (probe _ ∷ rs) = calls_in rs
calls_in (close ∷ rs) = calls_in rs

module _ (environ : Environ) (str_of : Value → String) where
  ping-cb : (t : Attempt (Unit {0})) (c : McpClient) → (ping environ t c).1.cb ≡ c.cb
  unfolding ping pinged reset_session
  ping-cb t c =
      let done : Unit {0} → Result UpstreamError (Unit {0}) = λ u. ok u in
      ground (arith, attempt-cb environ pinging done none t c)

  -- The client after requests, the first one first.
  unfoldable pub after_requests : List Request → McpClient → McpClient
  after_requests [] c = c
  after_requests (r ∷ rs) c = after_requests rs (step environ str_of r c)

  -- Each of the calls fails, and the failures are reported from a time on.
  abbrev pub Fail : ℕ → List Request → McpClient → Type 0
  Fail since [] c = Unit {0}
  Fail since (tool name args agent t ∷ rs) c =
      ((f : Failure) × ((call_tool environ str_of name args agent t c).0 ≡ err f))
      × (since ≤ t.failed_at)
      × Fail since rs (call_tool environ str_of name args agent t c).1
  Fail since (tools t ∷ rs) c =
      ((f : Failure) × ((list_tools environ t c).0 ≡ err f))
      × (since ≤ t.failed_at)
      × Fail since rs (list_tools environ t c).1
  Fail since (probe t ∷ rs) c = Fail since rs (ping environ t c).1
  Fail since (close ∷ rs) c = Fail since rs (reset_session c)

  outage_lem :
      (since timeout : ℕ) (rs : List Request) (c : McpClient)
      → Held since timeout (calls_in rs) c
      → Fail since rs c
      → Held since timeout 0 (after_requests rs c)
  unfolding after_requests step call_tool list_tools
  outage_lem since timeout [] c h all = h
  outage_lem since timeout (tool name args agent t ∷ rs) c h ((f, fails), l, more) =
      outage_lem since timeout rs (call_tool environ str_of name args agent t c).1
        (held_lem environ (λ s. calling s name args) (extract_content str_of) agent since timeout
          (calls_in rs) t c f h fails l)
        more
  outage_lem since timeout (tools t ∷ rs) c h ((f, fails), l, more) =
      outage_lem since timeout rs (list_tools environ t c).1
        (held_lem environ listing (λ (ts : List Tool). ok (map tool_to_dict ts)) none since timeout
          (calls_in rs) t c f h fails l)
        more
  outage_lem since timeout (probe t ∷ rs) c h more =
      outage_lem since timeout rs (ping environ t c).1
        (Held-cb since timeout (calls_in rs) c (ping environ t c).1 (ping-cb t c) h) more
  outage_lem since timeout (close ∷ rs) c h more =
      let same : (reset_session c).cb ≡ c.cb = unfold reset_session in refl in
      outage_lem since timeout rs (reset_session c)
        (Held-cb since timeout (calls_in rs) c (reset_session c) same h) more

  -- Requests of any kind have come in turn, on a client whose circuit was closed and below its
  -- threshold: calls of any tools by any agents, listings, probes and closes. All the calls and
  -- listings failed, at `since` or later, and were at least as many as the threshold lacked. Then
  -- any call and any listing before `since` plus the recovery time is refused, and leaves the
  -- client, its session and its requests as they are.
  pub after_requests-refused :
      (since : ℕ) (rs : List Request) (name : String) (args : Fields) (agent : Option String)
      (t : Run CallToolResult) (u : Run (List Tool)) (c : McpClient) (b : CircuitBreaker)
      → c.cb ≡ some b
      → b.state ≡ closed
      → b.failures < b.failure_threshold
      → b.failure_threshold ≤ b.failures + calls_in rs
      → Fail since rs c
      → t.gate_at < b.recovery_timeout + since
      → u.gate_at < b.recovery_timeout + since
      → (call_tool environ str_of name args agent t (after_requests rs c)
          ≡ (err (refusal (after_requests rs c)), after_requests rs c))
        × (list_tools environ u (after_requests rs c)
            ≡ (err (refusal (after_requests rs c)), after_requests rs c))
  unfolding call_tool list_tools
  after_requests-refused since rs name args agent t u c b h s below enough all call_early
        list_early =
      let start : Held since b.recovery_timeout (calls_in rs) c =
        (b, h, (refl, inr (s, enough, below))) in
      let (d, held, (r, g)) = outage_lem since b.recovery_timeout rs c start all in
      elim g [
        | inl (o, e, k, l) ↦
            let call_now : t.gate_at < probe_at d = unfold probe_at in ground arith in
            let list_now : u.gate_at < probe_at d = unfold probe_at in ground arith in
            (
              guarded-refused environ (λ s. calling s name args) (extract_content str_of) agent t
                  (after_requests rs c) d held o call_now,
              guarded-refused environ listing (λ (ts : List Tool). ok (map tool_to_dict ts)) none u
                  (after_requests rs c) d held o list_now,
            )
        | inr (o, f, l) ↦ ground arith
      ]
