-- ===== src/Client/Requests.antt =====
-- How often a call is sent, and with whose headers.
use Prim.Native.Nat.{zero}
use mcp_gateway_python.Prelude.{
  String, Option, Result, ok, ◌≡◌, arith, ap, List, [], ◌∷◌, ◌≤◌, ◌<◌, ◌+◌, ℕ, suc, err, some,
}
use mcp_gateway_python.Json.{Value, Fields}
use mcp_gateway_python.Credentials.Expand.{Environ}
use mcp_gateway_python.Credentials.Provider.{transport, unexpected}
use mcp_gateway_python.Client.Content.{CallToolResult, extract_content}
use mcp_gateway_python.Client.Session.{
  McpClient, Action, opening, listing, pinging, calling, Failure, upstream, raised, reset_session,
  resolve_headers, connect, open_session, get_session, Session,
}
use mcp_gateway_python.Client.Calls.{
  Attempt, attempt, read_answer, in_session, answered, retry_after, retrying, guarded, gate,
  through_gate, settle, on_ok, on_err, call_tool, Run,
}

-- The tool calls among the actions.
abbrev pub requests : List Action → ℕ
requests [] = 0
requests (opening s ∷ w) = requests w
requests (listing s ∷ w) = requests w
requests (pinging s ∷ w) = requests w
requests (calling s name arguments ∷ w) = suc (requests w)

module _ (environ : Environ) (str_of : Value → String) (name : String) (arguments : Fields)
    (agent : Option String) where
  abbrev send : Session → Action
  send s = calling s name arguments

  abbrev tried : Attempt CallToolResult → McpClient → Result Failure Value × McpClient
  tried t c = attempt environ send (extract_content str_of) agent t c

  -- At most so many more tool calls, and at least one more for a result.
  abbrev Sends : ℕ → McpClient → Result Failure Value × McpClient → Type 0
  Sends n c r =
      (requests r.1.wire ≤ requests c.wire + n)
      × (requests c.wire ≤ requests r.1.wire)
      × ((v : Value) → r.0 ≡ ok v → requests c.wire < requests r.1.wire)

  attempt-Sends : (t : Attempt CallToolResult) (c : McpClient) → Sends 1 c (tried t c)
  unfolding attempt get_session open_session connect resolve_headers in_session read_answer
  attempt-Sends t c = (ground arith, ground arith, λ v e. ground arith)

  retry_after-Sends :
      (left : ℕ) (more : McpClient → Result Failure Value × McpClient) (c : McpClient)
      (r : Result Failure Value × McpClient)
      → ((d : McpClient) → Sends left d (more d))
      → Sends 1 c r
      → Sends (suc left) c (retry_after environ send (extract_content str_of) agent more r)
  unfolding retry_after
  retry_after-Sends left more c (ok b, d) then_more (h, l, k) = (omega (arith, h), l, λ v e. k v e)
  retry_after-Sends left more c (err (upstream e), d) then_more (h, l, k) =
      (omega (arith, h), l, λ v g. ground arith)
  retry_after-Sends left more c (err (raised (unexpected text)), d) then_more (h, l, k) =
      (omega (arith, h), l, λ v g. ground arith)
  retry_after-Sends left more c (err (raised (transport text)), d) then_more (h, l, k) =
      let (up, down, found) = then_more (reset_session d) in
      unfold reset_session in
      (omega (arith, h, up), omega (arith, l, down), λ v g. omega (arith, l, found v g))

  retrying-Sends :
      (left n : ℕ) (ts : ℕ → Attempt CallToolResult) (c : McpClient)
      → Sends (suc left) c (retrying environ send (extract_content str_of) agent left n ts c)
  unfolding retrying
  retrying-Sends zero n ts c = attempt-Sends (ts n) c
  retrying-Sends (suc left) n ts c =
      retry_after-Sends (suc left)
        (retrying environ send (extract_content str_of) agent left (n + 1) ts) c (tried (ts n) c)
        (λ d. retrying-Sends left (n + 1) ts d) (attempt-Sends (ts n) c)

  settle-Sends :
      (n at : ℕ) (c : McpClient) (r : Result Failure Value × McpClient)
      → Sends n c r
      → Sends n c (settle environ send (extract_content str_of) agent at r)
  unfolding settle on_ok on_err reset_session
  settle-Sends n at c (ok v, d) h = h
  settle-Sends n at c (err (upstream e), d) (h, l, k) = (h, l, λ w g. ground arith)
  settle-Sends n at c (err (raised e), d) (h, l, k) = (h, l, λ w g. ground arith)

  gate_lem : (now : ℕ) (c : McpClient) → (gate now c).1.wire ≡ c.wire
  unfolding gate
  gate_lem now c = ground arith

  through_gate-Sends :
      (t : Run CallToolResult) (g : Result Failure (Unit {0}) × McpClient)
      → Sends 3 g.1 (through_gate environ send (extract_content str_of) agent t g)
  unfolding through_gate
  through_gate-Sends t (err f, c) = (omega arith, omega arith, λ v e. ground arith)
  through_gate-Sends t (ok _, c) =
      settle-Sends 3 t.failed_at c
        (retrying environ send (extract_content str_of) agent 2 1 t.attempts c)
        (retrying-Sends 2 1 t.attempts c)

  -- A call of a tool is sent at most three times, whatever the connections and the answers, and at
  -- least once when it returns a result.
  pub call_tool-requests :
      (t : Run CallToolResult) (c : McpClient)
      → let r = call_tool environ str_of name arguments agent t c in
        (requests r.1.wire ≤ requests c.wire + 3)
        × ((v : Value) → r.0 ≡ ok v → requests c.wire < requests r.1.wire)
  unfolding call_tool guarded
  call_tool-requests t c =
      let (up, down, found) = through_gate-Sends t (gate t.gate_at c) in
      let same : requests (gate t.gate_at c).1.wire ≡ requests c.wire =
        ap requests (gate_lem t.gate_at c) in
      (omega (arith, up, same), λ v e. omega (arith, found v e, same))

module _ (environ : Environ) (str_of : Value → String) (name : String) (arguments : Fields) where
  -- While a session is open, a call whose first request in it the server answers does not depend on
  -- the agent: what is sent, the result and the client after it are the same for any two.
  pub call_tool-agent :
      (first second : Option String) (t : Run CallToolResult) (c : McpClient) (s : Session)
      (r : CallToolResult)
      → c.session ≡ some s
      → (t.attempts 1).answer s ≡ answered r
      → call_tool environ str_of name arguments first t c
        ≡ call_tool environ str_of name arguments second t c
  unfolding call_tool guarded through_gate gate retrying retry_after attempt get_session in_session
      read_answer settle
  call_tool-agent first second t c s r held answer = ground arith
