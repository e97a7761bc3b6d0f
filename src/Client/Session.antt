-- ===== src/Client/Session.antt =====
-- `MCPClient`: its construction, its headers, and the life of its session. The breaker that it
-- refers to is a field: no other object acts on it while the client is in use.
use mcp_gateway_python.Prelude.{
  String, Option, none, some, List, [], ◌∷◌, Dict, insert, Result, ok, err, ◌==◌, if◌then◌else◌,
}
use mcp_gateway_python.Prelude.Text.{◌<>◌, rstrip}
use mcp_gateway_python.Json.{Fields}
use mcp_gateway_python.Breaker.{CircuitBreaker}
use mcp_gateway_python.Credentials.Expand.{Environ, resolve_env}
use mcp_gateway_python.Credentials.Provider.{
  Raised, AuthProvider, static_provider, ProviderFailure, auth_provider_error, provider_raised,
  Moment, nonempty, get_headers, build_auth_provider,
}
use mcp_gateway_python.Registry.Servers.{UpstreamServer}
use mcp_gateway_python.Client.Content.{UpstreamError, auth_failed}

-- An open session: the endpoint, and the headers that its connection was opened with.
pub record Session : Type 0 where
  pub url : String
  pub headers : Dict String

-- What a client did to its upstream.
pub data Action : Type 0 where
  opening : Session → Action
  listing : Session → Action
  pinging : Session → Action
  calling : Session → String → Fields → Action

pub record McpClient : Type 0 where
  pub server : UpstreamServer
  pub cb : Option CircuitBreaker
  pub auth_provider : Option AuthProvider
  pub forward_agent_header : Option String
  pub session : Option Session
  -- The actions so far, the latest first.
  pub wire : List Action

-- How a step of a call fails.
pub data Failure : Type 0 where
  upstream : UpstreamError → Failure
  raised : Raised → Failure

-- How connecting and the handshake end.
pub data Opened : Type 0 where
  connected : Opened
  open_failed : Raised → Opened

-- The header that forwards the agent's id, set over the provider's.
abbrev pub forwarding : Option String → Option String → Dict String → Dict String
forwarding header agent headers = elim (nonempty header) [
  | none ↦ headers
  | some h ↦ elim (nonempty agent) [ none ↦ headers | some a ↦ insert h a headers ]
]

failure_of : ProviderFailure → Failure
failure_of (auth_provider_error text) =
    upstream (record { message = "auth provider error: " <> text; code = auth_failed })
failure_of (provider_raised e) = raised e

-- The session of a transport: the headers go to `sse_client` only; `streamable_http_client` is
-- given the registry's shared HTTP client.
unfoldable pub session_for : UpstreamServer → Dict String → Session
session_for s headers =
    if s.transport == "sse"
    then record { url = rstrip b'/' s.base_url <> "/sse"; headers = headers }
    else record { url = rstrip b'/' s.base_url <> "/mcp"; headers = [] }

-- Connecting with the headers, and the handshake.
unfoldable pub connect :
    Opened → Result Failure (Dict String) × McpClient → Result Failure Session × McpClient
unfolding session_for
connect opened (err e, c) = (err e, c)
connect connected (ok headers, c) =
    let s = session_for c.server headers in
    (ok s, record c { session = some s; wire = opening s ∷ c.wire })
connect (open_failed e) (ok headers, c) =
    (err (raised e), record c { wire = opening (session_for c.server headers) ∷ c.wire })

module _ (environ : Environ) where
  legacy_provider : UpstreamServer → Option AuthProvider
  unfolding resolve_env
  legacy_provider s = elim (nonempty s.auth_header) [
    | none ↦ none
    | some h ↦ elim (nonempty s.auth_token) [
      | none ↦ none
      | some t ↦ some (static_provider h (resolve_env environ t))
    ]
  ]

  -- `MCPClient.__init__`
  unfoldable pub new_client : UpstreamServer → Option CircuitBreaker → McpClient
  unfolding legacy_provider build_auth_provider
  new_client s breaker = record {
    server = s;
    cb = breaker;
    auth_provider = elim s.server_auth [
      | none ↦ legacy_provider s
      | some cfg ↦ build_auth_provider environ cfg
    ];
    forward_agent_header = elim s.server_auth [
      | none ↦ none
      | some cfg ↦ cfg.forward_agent_id_header
    ];
    session = none;
    wire = [];
  }

  -- `_resolve_headers`
  unfoldable pub resolve_headers :
      Moment → Option String → McpClient → Result Failure (Dict String) × McpClient
  unfolding failure_of get_headers
  resolve_headers m agent c = elim c.auth_provider [
    | none ↦ (ok (forwarding c.forward_agent_header agent []), c)
    | some p ↦
        let (r, p') = get_headers environ m p in
        (
          elim r [
            | err e ↦ err (failure_of e)
            | ok headers ↦ ok (forwarding c.forward_agent_header agent headers)
          ],
          record c { auth_provider = some p' },
        )
  ]

  -- `_open_session`
  unfoldable pub open_session :
      Moment → Opened → Option String → McpClient → Result Failure Session × McpClient
  unfolding connect resolve_headers
  open_session m opened agent c = connect opened (resolve_headers m agent c)

  -- `_get_session`
  unfoldable pub get_session :
      Moment → Opened → Option String → McpClient → Result Failure Session × McpClient
  unfolding open_session
  get_session m opened agent c = elim c.session [
    | none ↦ open_session m opened agent c
    | some s ↦ (ok s, c)
  ]

-- `_reset_session`, and `close`
unfoldable pub reset_session : McpClient → McpClient
reset_session c = record c { session = none }
