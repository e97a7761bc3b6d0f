-- ===== src/Auth/Authorizer.antt =====
-- `Authorizer` of app/middleware/auth.py.
use mcp_gateway_python.Prelude.{
  ℕ, String, Bool, true, false, not, ◌&&◌, ◌||◌, Option, none, some, if◌then◌else◌, Dict, lookup,
  get_or, List, [], ◌∷◌, Result, ok, err, ◌==◌, elem,
}
use mcp_gateway_python.Json.{Fields}
use mcp_gateway_python.Auth.Oidc.{
  OidcConfig, OidcError, http_error, OidcValidator, new, Jose, truthy, validate, extract_agent_id,
}

pub record AuthPolicy : Type 0 where
  pub enabled : Bool
  pub oidc : OidcConfig
  pub agent_permissions : Dict (List String)
  pub mutable_allowed_agents : List String

pub record AgentPrincipal : Type 0 where
  pub agent_id : String
  pub permissions : List String

-- `AgentPrincipal.can`
unfoldable pub can : AgentPrincipal → String → Bool
can p action = elem "*" p.permissions || elem action p.permissions

-- The `reason` of an AuthorizationError. Another exception, from the download of a key set, leaves
-- `identify` as it is.
pub data Denial : Type 0 where
  invalid_token : OidcError → Denial
  missing_agent_id mutable_forbidden acl_denied : Denial
  uncaught_http_error : Denial

pub record Authorizer : Type 0 where
  pub policy : AuthPolicy
  pub oidc : Option OidcValidator

-- `Authorizer.__init__`
unfoldable pub new_authorizer : AuthPolicy → Authorizer
unfolding new
new_authorizer policy = record {
  policy = policy;
  oidc = if policy.oidc.enabled then some (new policy.oidc) else none;
}

-- `tuple(policy.agent_permissions.get(agent_id, []))`
unfoldable pub principal_of : AuthPolicy → String → AgentPrincipal
principal_of policy agent = record {
  agent_id = agent;
  permissions = get_or (lookup agent policy.agent_permissions) [];
}

-- The header's agent, `agent_id_header or "anonymous"`.
abbrev pub or_anonymous : Option String → String
or_anonymous none = "anonymous"
or_anonymous (some s) = if s == "" then "anonymous" else s

module _ (jose : Jose) where
  raised : OidcError → Denial
  raised http_error = uncaught_http_error
  raised e = invalid_token e

  by_token :
      ℕ
      → Option (List Fields)
      → AuthPolicy
      → String
      → OidcValidator
      → Result Denial AgentPrincipal × OidcValidator
  unfolding raised
  by_token now doc policy token v =
      let (r, v') = validate jose now doc token v in
      (
        elim r [
          | err e ↦ err (raised e)
          | ok payload ↦ elim (extract_agent_id jose v.cfg payload) [
            | err e ↦ err (raised e)
            | ok agent ↦ ok (principal_of policy agent)
          ]
        ],
        v',
      )

  by_header : AuthPolicy → Option String → Result Denial AgentPrincipal
  by_header policy header =
      if truthy header then ok (principal_of policy (get_or header "")) else err missing_agent_id

  identify_by :
      ℕ
      → Option (List Fields)
      → Option String
      → Option String
      → AuthPolicy
      → Option OidcValidator
      → Result Denial AgentPrincipal × Option OidcValidator
  unfolding by_token by_header
  identify_by now doc header token policy none = (by_header policy header, none)
  identify_by now doc header token policy (some v) =
      if truthy token
      then (let (r, v') = by_token now doc policy (get_or token "") v in (r, some v'))
      else (by_header policy header, some v)

  -- `identify`
  unfoldable pub identify :
      ℕ
      → Option (List Fields)
      → Option String
      → Option String
      → Authorizer
      → Result Denial AgentPrincipal × Authorizer
  unfolding identify_by
  identify now doc header token a =
      if not a.policy.enabled
      then (ok (record { agent_id = or_anonymous header; permissions = "*" ∷ [] }), a)
      else (let (r, o) = identify_by now doc header token a.policy a.oidc in
          (r, record a { oidc = o }))

-- Python's truth of the permissions: an agent with none listed is not restricted.
abbrev pub is_restricted : List String → Bool
is_restricted [] = false
is_restricted (_ ∷ _) = true

-- `authorize_tool_call`
unfoldable pub authorize_tool_call :
    AuthPolicy → AgentPrincipal → String → String → Bool → Result Denial (Unit {0})
unfolding can
authorize_tool_call policy p tool_name qualified_name mutable_tool =
    if not policy.enabled
    then ok tt
    else if mutable_tool && not (elem p.agent_id policy.mutable_allowed_agents)
    then err mutable_forbidden
    else if is_restricted p.permissions && not (elem "*" p.permissions)
    then (if not (can p tool_name || can p qualified_name) then err acl_denied else ok tt)
    else ok tt
