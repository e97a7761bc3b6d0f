-- ===== src/Client/Headers.antt =====
-- Which credentials reach an upstream.
use mcp_gateway_python.Prelude.{
  String, Option, none, some, ok, ◌≡◌, refl, arith, List, [], ◌∷◌, All, ◌==◌, false, Dict,
}
use mcp_gateway_python.Breaker.{CircuitBreaker}
use mcp_gateway_python.Json.{Value}
use mcp_gateway_python.Credentials.Expand.{Environ, resolve_env}
use mcp_gateway_python.Credentials.Provider.{
  AuthProvider, static_provider, Moment, get_headers, nonempty,
}
use mcp_gateway_python.Registry.Servers.{UpstreamServer}
use mcp_gateway_python.Client.Session.{McpClient, new_client, resolve_headers, session_for}
use mcp_gateway_python.Client.Wire.{Request, run, Uses, run-Uses, session_of}

-- The client of a server with a transport other than "sse".
abbrev Streams : UpstreamServer → Option AuthProvider → Option String → Type 0
Streams s p f = (s.transport == "sse") ≡ false

-- The client of a server, with a static credential and no header for the agent.
abbrev HasStatic :
    UpstreamServer → String → String → UpstreamServer → Option AuthProvider → Option String → Type 0
HasStatic s header token s' p f = (s' ≡ s) × (p ≡ some (static_provider header token)) × (f ≡ none)

module _ (environ : Environ) (str_of : Value → String) where
  streams_lem :
      (m : Moment) (agent : Option String) (c : McpClient)
      → Streams c.server c.auth_provider c.forward_agent_header
      → (let r = resolve_headers environ m agent c in
          Streams r.1.server r.1.auth_provider r.1.forward_agent_header
          × ((h : Dict String) → r.0 ≡ ok h → (session_for r.1.server h).headers ≡ []))
  unfolding resolve_headers session_for
  streams_lem m agent c streams = (ground arith, λ h e. ground arith)

  static_lem :
      (s : UpstreamServer) (header token : String) (m : Moment) (agent : Option String)
      (c : McpClient)
      → HasStatic s header token c.server c.auth_provider c.forward_agent_header
      → (let r = resolve_headers environ m agent c in
          HasStatic s header token r.1.server r.1.auth_provider r.1.forward_agent_header
          × ((h : Dict String)
              → r.0 ≡ ok h
              → session_for r.1.server h ≡ session_for s ((header, token) ∷ [])))
  unfolding resolve_headers get_headers
  static_lem s header token m agent c (same, p, f) =
      ((ground arith, ground arith, ground arith), λ h e. ground arith)

  -- Whatever is asked of the client of a server whose transport is not "sse", each of its
  -- connections is opened without any header of its own: neither the credentials that are
  -- configured for the server nor the agent's id are sent.
  pub run-bare :
      (s : UpstreamServer) (b : Option CircuitBreaker) (rs : List Request)
      → (s.transport == "sse") ≡ false
      → All (λ a. (session_of a).headers ≡ []) (run environ str_of rs (new_client environ s b)).wire
  run-bare s b rs streams =
      let made : Uses Streams (λ x. x.headers ≡ []) (new_client environ s b) =
        unfold new_client in (streams, (λ x e. ground arith), tt) in
      (run-Uses environ str_of Streams (λ x. x.headers ≡ []) streams_lem rs (new_client environ s b)
        made).2

  -- For a server without a structured auth configuration, with both older fields given and not
  -- empty: over any sequence of requests, each session of its client is the one of its transport
  -- with this one header, where the variables of the token are replaced; of these sessions only
  -- those over "sse" have the header.
  pub run-static :
      (s : UpstreamServer) (b : Option CircuitBreaker) (rs : List Request) (header raw : String)
      → s.server_auth ≡ none
      → nonempty s.auth_header ≡ some header
      → nonempty s.auth_token ≡ some raw
      → All
          (λ a. session_of a ≡ session_for s ((header, resolve_env environ raw) ∷ []))
          (run environ str_of rs (new_client environ s b)).wire
  run-static s b rs header raw old h t =
      let token = resolve_env environ raw in
      let made : Uses (HasStatic s header token) (λ x. x ≡ session_for s ((header, token) ∷ []))
          (new_client environ s b) =
        unfold new_client in ((refl, ground arith, ground arith), (λ x e. ground arith), tt) in
      (run-Uses environ str_of (HasStatic s header token)
        (λ x. x ≡ session_for s ((header, token) ∷ [])) (static_lem s header token) rs
        (new_client environ s b) made).2
