-- ===== src/Client/Calls.antt =====
-- `list_tools`, `call_tool` and `ping`, with the breaker and the retries around them. The retries are
-- those that tenacity is asked for: `stop_after_attempt(3)`, of the exceptions that are listed, the
-- last one raised again.
use Prim.Native.Nat.{zero}
use mcp_gateway_python.Prelude.{
  ℕ, suc, ◌+◌, String, Option, none, some, Bool, true, false, List, ◌∷◌, map, Result, ok, err,
  map_option,
}
use mcp_gateway_python.Prelude.Text.{◌<>◌}
use mcp_gateway_python.Json.{Value, Fields}
use mcp_gateway_python.Breaker.{before_call, on_success, on_failure}
use mcp_gateway_python.Credentials.Expand.{Environ}
use mcp_gateway_python.Credentials.Provider.{Raised, transport, unexpected, Moment}
use mcp_gateway_python.Registry.Naming.{RawTool}
use mcp_gateway_python.Client.Content.{
  UpstreamError, CallToolResult, extract_content, Tool, tool_to_dict, circuit_open, server_error,
}
use mcp_gateway_python.Client.Session.{
  McpClient, Session, Action, listing, pinging, calling, Failure, upstream, raised, Opened,
  get_session, reset_session,
}

-- What a request in a session ends with.
pub data Answer (A : Type 0) : Type 0 where
  answered : A → Answer A
  answer_failed : Raised → Answer A

-- What an attempt meets: the token endpoint, the connection, and the server.
pub record Attempt (A : Type 0) : Type 0 where
  pub moment : Moment
  pub opened : Opened
  pub answer : Session → Answer A

-- What a call meets: its attempts, by number, and the times at which the breaker is asked and told.
pub record Run (A : Type 0) : Type 0 where
  pub gate_at : ℕ
  pub failed_at : ℕ
  pub attempts : ℕ → Attempt A

-- The exceptions that `retry_if_exception_type` is given.
abbrev pub is_retried : Failure → Bool
is_retried (raised (transport text)) = true
is_retried (raised (unexpected text)) = false
is_retried (upstream e) = false

text_of : Raised → String
text_of (transport text) = text
text_of (unexpected text) = text

-- `_gate`
unfoldable pub gate : ℕ → McpClient → Result Failure (Unit {0}) × McpClient
gate now c = elim c.cb [
  | none ↦ (ok tt, c)
  | some b ↦
      let (r, b') = before_call now b in
      (
        elim r [
          | ok _ ↦ ok tt
          | err _ ↦ err (
              upstream (record {
                message = "circuit open for '" <> c.server.id <> "' — try again later";
                code = circuit_open;
              }))
        ],
        record c { cb = some b' },
      )
]

-- `_on_ok`
unfoldable pub on_ok : McpClient → McpClient
on_ok c = record c { cb = map_option on_success c.cb }

-- `_on_err`
unfoldable pub on_err : ℕ → McpClient → McpClient
on_err now c = record c { cb = map_option (on_failure now) c.cb }

module _ (environ : Environ) {A B : Type 0} (act : Session → Action)
    (read : A → Result UpstreamError B) (agent : Option String) where
  -- The request in a session, and what is made of its answer.
  unfoldable pub read_answer : Session → Answer A → McpClient → Result Failure B × McpClient
  read_answer s (answered a) c =
      (elim (read a) [ err e ↦ err (upstream e) | ok b ↦ ok b ], record c { wire = act s ∷ c.wire })
  read_answer s (answer_failed e) c = (err (raised e), record c { wire = act s ∷ c.wire })

  unfoldable pub in_session :
      Attempt A → Result Failure Session × McpClient → Result Failure B × McpClient
  unfolding read_answer
  in_session t (err f, c) = (err f, c)
  in_session t (ok s, c) = read_answer s (t.answer s) c

  -- The body of an attempt.
  unfoldable pub attempt : Attempt A → McpClient → Result Failure B × McpClient
  unfolding in_session get_session
  attempt t c = in_session t (get_session environ t.moment t.opened agent c)

  -- What follows an attempt that may be retried.
  unfoldable pub retry_after :
      (McpClient → Result Failure B × McpClient)
      → Result Failure B × McpClient
      → Result Failure B × McpClient
  unfolding reset_session
  retry_after more (ok b, c) = (ok b, c)
  retry_after more (err f, c) = elim (is_retried f) [
    | true ↦ more (reset_session c)
    | false ↦ (err f, c)
  ]

  -- The attempts from the `n`-th on, with `left` more after it.
  unfoldable pub retrying : ℕ → ℕ → (ℕ → Attempt A) → McpClient → Result Failure B × McpClient
  unfolding attempt retry_after
  retrying zero n ts c = attempt (ts n) c
  retrying (suc left) n ts c = retry_after (retrying left (n + 1) ts) (attempt (ts n) c)

  -- The two handlers and what follows them.
  unfoldable pub settle : ℕ → Result Failure B × McpClient → Result Failure B × McpClient
  unfolding on_ok on_err text_of reset_session
  settle failed_at (ok b, c) = (ok b, on_ok c)
  settle failed_at (err (upstream e), c) = (err (upstream e), on_err failed_at c)
  settle failed_at (err (raised e), c) = (
    err (upstream (record { message = text_of e; code = server_error })),
    reset_session (on_err failed_at c),
  )

  unfoldable pub through_gate :
      Run A → Result Failure (Unit {0}) × McpClient → Result Failure B × McpClient
  unfolding settle retrying
  through_gate t (err f, c) = (err f, c)
  through_gate t (ok _, c) = settle t.failed_at (retrying 2 1 t.attempts c)

  -- The body that `list_tools` and `call_tool` share.
  unfoldable pub guarded : Run A → McpClient → Result Failure B × McpClient
  unfolding through_gate gate
  guarded t c = through_gate t (gate t.gate_at c)

module _ (environ : Environ) where
  -- `call_tool`
  unfoldable pub call_tool :
      (Value → String)
      → String
      → Fields
      → Option String
      → Run CallToolResult
      → McpClient
      → Result Failure Value × McpClient
  unfolding guarded
  call_tool str_of name arguments agent =
      guarded environ (λ s. calling s name arguments) (extract_content str_of) agent

  -- `list_tools`
  unfoldable pub list_tools :
      Run (List Tool) → McpClient → Result Failure (List RawTool) × McpClient
  unfolding guarded
  list_tools = guarded environ listing (λ (ts : List Tool). ok (map tool_to_dict ts)) none

  -- What follows the attempt of a ping.
  unfoldable pub pinged : Result Failure (Unit {0}) × McpClient → Bool × McpClient
  unfolding reset_session
  pinged (ok _, c) = (true, c)
  pinged (err _, c) = (false, reset_session c)

  -- `ping`
  unfoldable pub ping : Attempt (Unit {0}) → McpClient → Bool × McpClient
  unfolding pinged attempt
  ping t c = pinged (attempt environ pinging (λ (u : Unit {0}). ok u) none t c)
