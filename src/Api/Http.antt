-- ===== src/Api/Http.antt =====
-- app/api/dependencies.py, and what a request and a response are.
use mcp_gateway_python.Prelude.{ℕ, String, Option, none, some, List, ok, err, ◌==◌, if◌then◌else◌}
use mcp_gateway_python.Prelude.Text.{lower, prefix_of, drop_chars, strip}
use mcp_gateway_python.Json.{Fields}
use mcp_gateway_python.Credentials.Provider.{nonempty}
use mcp_gateway_python.Auth.Oidc.{Jose}
use mcp_gateway_python.Auth.Authorizer.{
  Authorizer, AgentPrincipal, Denial, uncaught_http_error, identify,
}

-- The settings that the routes read.
pub record Settings : Type 0 where
  pub api_key_header : String
  pub api_key : Option String
  pub agent_id_header : String

-- `request.headers.get`
pub record Request : Type 0 where
  pub header : String → Option String

-- What a handler ends with: its value, an HTTPException, or another exception, which is a response
-- of status 500.
pub data Response (A : Type 0) : Type 0 where
  done : A → Response A
  http_exception : ℕ → String → Response A
  raised : String → Response A

-- `require_api_key`
unfoldable pub require_api_key : Settings → Request → Response (Unit {0})
require_api_key s r = elim s.api_key [
  | none ↦ done tt
  | some key ↦ elim (r.header s.api_key_header) [
    | none ↦ http_exception 401 "invalid or missing API key"
    | some provided ↦
        if provided == key then done tt else http_exception 401 "invalid or missing API key"
  ]
]

-- The token of an Authorization header.
unfoldable pub bearer_of : Option String → Option String
bearer_of authorization = elim (nonempty authorization) [
  | none ↦ none
  | some value ↦
      if prefix_of (lower "bearer ") (lower value) then some (strip (drop_chars 7 value)) else none
]

-- `x_agent_id or request.headers.get(settings.agent_id_header)`
unfoldable pub agent_of : Settings → Request → Option String
agent_of s r = elim (nonempty (r.header "X-Agent-Id")) [
  | none ↦ r.header s.agent_id_header
  | some agent ↦ some agent
]

-- What identification takes from outside: the token library, the time, the key set that the endpoint
-- would give, and the text of an exception.
pub record Lookup : Type 1 where
  pub jose : Jose
  pub now : ℕ
  pub key_set : Option (List Fields)
  pub text : Denial → String

denied : Lookup → Denial → Response AgentPrincipal
denied l uncaught_http_error = raised (l.text uncaught_http_error)
denied l d = http_exception 401 (l.text d)

-- `get_principal`
unfoldable pub get_principal :
    Settings → Lookup → Request → Authorizer → Response AgentPrincipal × Authorizer
unfolding bearer_of agent_of denied
get_principal s l r a =
    let token = bearer_of (r.header "Authorization") in
    let (p, a') = identify l.jose l.now l.key_set (agent_of s r) token a in
    (elim p [ err d ↦ denied l d | ok principal ↦ done principal ], a')
