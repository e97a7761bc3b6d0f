-- ===== src/Client/Wire.antt =====
-- The sessions that a client opens over its life, and what it sends in them.
use mathlib.Core.Path.{subst}
use mcp_gateway_python.Prelude.{
  String, Option, none, some, Result, ok, err, ◌≡◌, refl, arith, List, [], ◌∷◌, All, Dict,
  Option-cases, map, inl, inr,
}
use mcp_gateway_python.Json.{Value, Fields}
use mcp_gateway_python.Credentials.Expand.{Environ}
use mcp_gateway_python.Credentials.Provider.{AuthProvider, Moment}
use mcp_gateway_python.Registry.Servers.{UpstreamServer}
use mcp_gateway_python.Client.Content.{
  UpstreamError, CallToolResult, extract_content, Tool, tool_to_dict,
}
use mcp_gateway_python.Client.Session.{
  McpClient, Session, Action, opening, listing, pinging, calling, Failure, Opened, resolve_headers,
  session_for, get_session, open_session, connect, connected, open_failed, reset_session,
}
use mcp_gateway_python.Client.Calls.{
  Attempt, Run, Answer, answered, answer_failed, attempt, guarded, call_tool, list_tools, ping,
  pinged, read_answer, in_session,
}
use mcp_gateway_python.Client.Attempts.{guarded-keeps}

-- The session that an action uses.
abbrev pub session_of : Action → Session
session_of (opening s) = s
session_of (listing s) = s
session_of (pinging s) = s
session_of (calling s name arguments) = s

-- What the gateway asks of a client.
pub data Request : Type 0 where
  tool : String → Fields → Option String → Run CallToolResult → Request
  tools : Run (List Tool) → Request
  probe : Attempt (Unit {0}) → Request
  close : Request

-- Of such a client, the open session and those of the past are such sessions.
abbrev pub Uses :
    (UpstreamServer → Option AuthProvider → Option String → Type 0)
    → (Session → Type 0)
    → McpClient
    → Type 0
Uses R Q c =
    R c.server c.auth_provider c.forward_agent_header
    × ((s : Session) → c.session ≡ some s → Q s)
    × All (λ a. Q (session_of a)) c.wire

module _ (environ : Environ) (str_of : Value → String) where
  unfoldable pub step : Request → McpClient → McpClient
  step (tool name arguments agent t) c = (call_tool environ str_of name arguments agent t c).1
  step (tools t) c = (list_tools environ t c).1
  step (probe t) c = (ping environ t c).1
  step close c = reset_session c

  -- A client after requests, the latest first.
  unfoldable pub run : List Request → McpClient → McpClient
  run [] c = c
  run (r ∷ rs) c = step r (run rs c)

  module _ (R : UpstreamServer → Option AuthProvider → Option String → Type 0)
      (Q : Session → Type 0)
      (resolves : (m : Moment) (agent : Option String) (c : McpClient)
        → R c.server c.auth_provider c.forward_agent_header
        → (let r = resolve_headers environ m agent c in
            R r.1.server r.1.auth_provider r.1.forward_agent_header
            × ((h : Dict String) → r.0 ≡ ok h → Q (session_for r.1.server h)))) where
    resolve-Uses :
        (m : Moment) (agent : Option String) (c : McpClient)
        → Uses R Q c
        → Uses R Q (resolve_headers environ m agent c).1
    resolve-Uses m agent c (r, held, w) =
        let session : (resolve_headers environ m agent c).1.session ≡ c.session =
          unfold resolve_headers in ground arith in
        let wire : (resolve_headers environ m agent c).1.wire ≡ c.wire =
          unfold resolve_headers in ground arith in
        ((resolves m agent c r).0, rw session held, rw wire w)

    connect-Uses :
        (o : Opened) (r : Result Failure (Dict String) × McpClient)
        → Uses R Q r.1
        → ((h : Dict String) → r.0 ≡ ok h → Q (session_for r.1.server h))
        → Uses R Q (connect o r).1 × ((s : Session) → (connect o r).0 ≡ ok s → Q s)
    unfolding connect
    connect-Uses o (err e, c) u q = (u, λ s e. ground arith)
    connect-Uses connected (ok h, c) (r, held, w) q = (
      (
        r,
        (λ s e. let same : session_for c.server h ≡ s = ground arith in subst Q same (q h refl)),
        (q h refl, w),
      ),
      λ s e. let same : session_for c.server h ≡ s = ground arith in subst Q same (q h refl),
    )
    connect-Uses (open_failed e) (ok h, c) (r, held, w) q =
        ((r, held, (q h refl, w)), λ s e. ground arith)

    reset-Uses : (c : McpClient) → Uses R Q c → Uses R Q (reset_session c)
    unfolding reset_session
    reset-Uses c (r, s, w) = (r, λ z e. ground arith, w)

    get-Uses :
        (m : Moment) (o : Opened) (agent : Option String) (c : McpClient)
        → Uses R Q c
        → Uses R Q (get_session environ m o agent c).1
          × ((s : Session) → (get_session environ m o agent c).0 ≡ ok s → Q s)
    get-Uses m o agent c u = elim (Option-cases c.session) [
      | inl new ↦
          let at : get_session environ m o agent c ≡ connect o (resolve_headers environ m agent c) =
            unfold get_session open_session in ground arith in
          rw at (
            connect-Uses o (resolve_headers environ m agent c) (resolve-Uses m agent c u)
              (resolves m agent c u.0).1)
      | inr (old, held) ↦
          let at : get_session environ m o agent c ≡ (ok old, c) =
            unfold get_session in ground arith in
          rw at (u, λ s e. u.1 s (unfold get_session in ground arith))
    ]

    module _ {A B : Type 0} (act : Session → Action) (same : (s : Session) → session_of (act s) ≡ s)
        (read : A → Result UpstreamError B) (agent : Option String) where
      read_answer-Uses :
          (s : Session) (a : Answer A) (c : McpClient)
          → Q s
          → Uses R Q c
          → Uses R Q (read_answer environ act read agent s a c).1
      unfolding read_answer
      read_answer-Uses s (answered a) c q (r, held, w) = (r, held, (rw (same s) q, w))
      read_answer-Uses s (answer_failed e) c q (r, held, w) = (r, held, (rw (same s) q, w))

      in_session-Uses :
          (t : Attempt A) (r : Result Failure Session × McpClient)
          → Uses R Q r.1
          → ((s : Session) → r.0 ≡ ok s → Q s)
          → Uses R Q (in_session environ act read agent t r).1
      unfolding in_session
      in_session-Uses t (err f, c) u q = u
      in_session-Uses t (ok s, c) u q = read_answer-Uses s (t.answer s) c (q s refl) u

      attempt-Uses :
          (t : Attempt A) (c : McpClient)
          → Uses R Q c
          → Uses R Q (attempt environ act read agent t c).1
      unfolding attempt
      attempt-Uses t c u =
          let (v, q) = get-Uses t.moment t.opened agent c u in
          in_session-Uses t (get_session environ t.moment t.opened agent c) v q

      guarded-Uses :
          (t : Run A) (c : McpClient) → Uses R Q c → Uses R Q (guarded environ act read agent t c).1
      guarded-Uses =
          guarded-keeps environ act read agent (Uses R Q) attempt-Uses reset-Uses (λ b c u. u)

    pinged-Uses :
        (r : Result Failure (Unit {0}) × McpClient) → Uses R Q r.1 → Uses R Q (pinged environ r).1
    unfolding pinged
    pinged-Uses (ok _, c) u = u
    pinged-Uses (err _, c) u = reset-Uses c u

    step-Uses : (r : Request) (c : McpClient) → Uses R Q c → Uses R Q (step r c)
    unfolding step call_tool list_tools ping
    step-Uses (tool name arguments agent t) c u =
        guarded-Uses (λ s. calling s name arguments) (λ s. refl) (extract_content str_of) agent t c
          u
    step-Uses (tools t) c u =
        guarded-Uses listing (λ s. refl) (λ (ts : List Tool). ok (map tool_to_dict ts)) none t c u
    step-Uses (probe t) c u =
        let done : Unit {0} → Result UpstreamError (Unit {0}) = λ v. ok v in
        pinged-Uses (attempt environ pinging done none t c)
          (attempt-Uses pinging (λ s. refl) done none t c u)
    step-Uses close c u = reset-Uses c u

    -- What holds of the sessions at the start, holds of them after any requests.
    pub run-Uses : (rs : List Request) (c : McpClient) → Uses R Q c → Uses R Q (run rs c)
    unfolding run
    run-Uses [] c u = u
    run-Uses (r ∷ rs) c u = step-Uses r (run rs c) (run-Uses rs c u)
