-- ===== src/Client/Breaking.antt =====
-- What a call does to the breaker of its client, and what an open breaker does to a call.
use mcp_gateway_python.Prelude.{
  ℕ, String, Option, some, Result, ok, err, ◌≡◌, refl, arith, ◌<◌, ◌∙◌,
}
use mcp_gateway_python.Prelude.Text.{◌<>◌}
use mcp_gateway_python.Breaker.{
  CircuitBreaker, opened, before_call, on_success, on_failure, probe_at,
}
use mcp_gateway_python.Credentials.Expand.{Environ}
use mcp_gateway_python.Client.Content.{UpstreamError, circuit_open}
use mcp_gateway_python.Client.Session.{
  McpClient, Session, Action, Failure, upstream, get_session, open_session, resolve_headers,
  reset_session,
}
use mcp_gateway_python.Client.Attempts.{retrying-keeps}
use mcp_gateway_python.Client.Calls.{
  Attempt, Run, attempt, retrying, settle, guarded, gate, on_ok, on_err,
}

-- What the breaker is told at the end of a call.
abbrev pub told : {B : Type 0} → Result Failure B → ℕ → CircuitBreaker → CircuitBreaker
told (ok b) at c = on_success c
told (err f) at c = on_failure at c

-- The error of a call that the breaker refuses.
abbrev pub refusal : McpClient → Failure
refusal c = upstream (record {
  message = "circuit open for '" <> c.server.id <> "' — try again later";
  code = circuit_open;
})

module _ (environ : Environ) {A B : Type 0} (act : Session → Action)
    (read : A → Result UpstreamError B) (agent : Option String) where
  pub attempt-cb :
      (t : Attempt A) (c : McpClient) → (attempt environ act read agent t c).1.cb ≡ c.cb
  unfolding attempt get_session open_session resolve_headers
  attempt-cb t c = ground arith

  retrying-cb :
      (left n : ℕ) (ts : ℕ → Attempt A) (c : McpClient)
      → (retrying environ act read agent left n ts c).1.cb ≡ c.cb
  retrying-cb left n ts c =
      retrying-keeps environ act read agent (λ d. d.cb ≡ c.cb) (λ t d h. attempt-cb t d ∙ h)
        (λ d h. unfold reset_session in h) left n ts c refl

  settle-cb :
      (at : ℕ) (r : Result Failure B) (c : McpClient) (b : CircuitBreaker)
      → c.cb ≡ some b
      → (settle environ act read agent at (r, c)).1.cb
        ≡ some (told (settle environ act read agent at (r, c)).0 at b)
  unfolding settle on_ok on_err
  settle-cb at r c b h = ground arith

  -- A call that its circuit breaker admits makes one report to the breaker, whatever its attempts
  -- and retries: a success if the call returns, and otherwise a failure at the time of the handler.
  pub guarded-told :
      (t : Run A) (c : McpClient) (b : CircuitBreaker)
      → c.cb ≡ some b
      → (before_call t.gate_at b).0 ≡ ok tt
      → (guarded environ act read agent t c).1.cb
        ≡ some (told (guarded environ act read agent t c).0 t.failed_at (before_call t.gate_at b).1)
  unfolding guarded gate
  guarded-told t c b h admitted =
      let opened_cb =
        retrying-cb 2 1 t.attempts (record c { cb = some (before_call t.gate_at b).1 }) in
      ground (arith, opened_cb, settle-cb t.failed_at)

  -- An open circuit whose recovery time has not come refuses a call: the call fails with the
  -- error of code -32001, and the client, its session and its requests are as before.
  pub guarded-refused :
      (t : Run A) (c : McpClient) (b : CircuitBreaker)
      → c.cb ≡ some b
      → b.state ≡ opened
      → t.gate_at < probe_at b
      → guarded environ act read agent t c ≡ (err (refusal c), c)
  unfolding guarded gate before_call
  guarded-refused t c b h o early = ground arith
