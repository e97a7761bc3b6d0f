-- ===== src/Client/Attempts.antt =====
-- What the attempts of a call keep.
use mcp_gateway_python.Prelude.{
  ℕ, String, Option, Result, ok, err, zero, suc, ◌+◌, Option-cases, inl, map_option, ◌≡◌, arith,
  inr, some,
}
use mcp_gateway_python.Breaker.{CircuitBreaker, before_call, on_success, on_failure}
use mcp_gateway_python.Credentials.Expand.{Environ}
use mcp_gateway_python.Credentials.Provider.{transport, unexpected}
use mcp_gateway_python.Client.Content.{UpstreamError}
use mcp_gateway_python.Client.Session.{
  McpClient, Session, Action, Failure, upstream, raised, reset_session,
}
use mcp_gateway_python.Client.Calls.{
  Attempt, attempt, retrying, retry_after, guarded, settle, gate, through_gate, on_ok, Run, on_err,
}

module _ (environ : Environ) {A B : Type 0} (act : Session → Action)
    (read : A → Result UpstreamError B) (agent : Option String) (P : McpClient → Type 0)
    (try : (t : Attempt A) (c : McpClient) → P c → P (attempt environ act read agent t c).1)
    (reset : (c : McpClient) → P c → P (reset_session c)) where
  retry_after-keeps :
      (more : McpClient → Result Failure B × McpClient) (r : Result Failure B × McpClient)
      → ((c : McpClient) → P c → P (more c).1)
      → P r.1
      → P (retry_after environ act read agent more r).1
  unfolding retry_after
  retry_after-keeps more (ok b, c) then_more h = h
  retry_after-keeps more (err (upstream e), c) then_more h = h
  retry_after-keeps more (err (raised (unexpected text)), c) then_more h = h
  retry_after-keeps more (err (raised (transport text)), c) then_more h =
      then_more (reset_session c) (reset c h)

  -- What an attempt and a reset keep, all attempts keep.
  pub retrying-keeps :
      (left n : ℕ) (ts : ℕ → Attempt A) (c : McpClient)
      → P c
      → P (retrying environ act read agent left n ts c).1
  unfolding retrying
  retrying-keeps zero n ts c h = try (ts n) c h
  retrying-keeps (suc left) n ts c h =
      retry_after-keeps (retrying environ act read agent left (n + 1) ts)
        (attempt environ act read agent (ts n) c) (λ d g. retrying-keeps left (n + 1) ts d g)
        (try (ts n) c h)

  module _
      (report : (b : Option CircuitBreaker) (c : McpClient) → P c → P (record c { cb = b })) where
    settle-keeps :
        (at : ℕ) (r : Result Failure B × McpClient)
        → P r.1
        → P (settle environ act read agent at r).1
    unfolding settle on_ok on_err
    settle-keeps at (ok b, c) h = report (map_option on_success c.cb) c h
    settle-keeps at (err (upstream e), c) h = report (map_option (on_failure at) c.cb) c h
    settle-keeps at (err (raised e), c) h =
        reset (on_err at c) (report (map_option (on_failure at) c.cb) c h)

    through_gate-keeps :
        (t : Run A) (r : Result Failure (Unit {0}) × McpClient)
        → P r.1
        → P (through_gate environ act read agent t r).1
    unfolding through_gate
    through_gate-keeps t (err f, c) h = h
    through_gate-keeps t (ok _, c) h =
        settle-keeps t.failed_at (retrying environ act read agent 2 1 t.attempts c)
          (retrying-keeps 2 1 t.attempts c h)

    gate-keeps : (now : ℕ) (c : McpClient) → P c → P (gate now c).1
    gate-keeps now c h = elim (Option-cases c.cb) [
      | inl new ↦ let at : (gate now c).1 ≡ c = unfold gate in ground arith in rw at h
      | inr (b, held) ↦
          let at : (gate now c).1 ≡ record c { cb = some (before_call now b).1 } =
            unfold gate in ground arith in
          rw at (report (some (before_call now b).1) c h)
    ]

    -- What breakers do not affect, a call keeps as well.
    pub guarded-keeps : (t : Run A) (c : McpClient) → P c → P (guarded environ act read agent t c).1
    unfolding guarded
    guarded-keeps t c h = through_gate-keeps t (gate t.gate_at c) (gate-keeps t.gate_at c h)
