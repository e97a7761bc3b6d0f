-- ===== src/Auth/Decision.antt =====
-- What the authorizer decides, against a description of who is meant to be let in.
use mcp_gateway_python.Prelude.{
  ℕ, String, Bool, true, false, Option, some, lookup, get_or, List, [], ok, elem, ◌≡◌, ◌↔◌, ◌⊎◌,
  inl, inr, arith, Result-cases,
}
use mcp_gateway_python.Json.{Fields}
use mcp_gateway_python.Auth.Oidc.{OidcValidator, Jose, truthy, validate, extract_agent_id}
use mcp_gateway_python.Auth.Authorizer.{
  AuthPolicy, AgentPrincipal, Authorizer, identify, authorize_tool_call, principal_of,
}

-- The agent is on the list for mutable tools, if the tool is mutable, and its permissions, if it
-- has any, name the tool by its raw or its qualified name or hold "*".
abbrev pub MayCall : AuthPolicy → AgentPrincipal → String → String → Bool → Type 0
MayCall policy p tool_name qualified_name mutable_tool =
    ((mutable_tool ≡ false) ⊎ (elem p.agent_id policy.mutable_allowed_agents ≡ true))
    × ((p.permissions ≡ [])
        ⊎ (elem "*" p.permissions ≡ true)
        ⊎ (elem tool_name p.permissions ≡ true)
        ⊎ (elem qualified_name p.permissions ≡ true))

-- With the policy off every call is authorized. With the policy on, a call is authorized exactly
-- when the tool is not mutable or the agent is one that may call mutable tools, and the agent's
-- permissions are empty, hold `*`, or hold the tool's raw or qualified name as it is written: a
-- pattern such as `search.*` stands for no name but itself.
pub authorize_tool_call_iff :
    (policy : AuthPolicy) (p : AgentPrincipal) (tool_name qualified_name : String)
    (mutable_tool : Bool)
    → (authorize_tool_call policy p tool_name qualified_name mutable_tool ≡ ok tt)
      ↔ ((policy.enabled ≡ false) ⊎ MayCall policy p tool_name qualified_name mutable_tool)
unfolding authorize_tool_call
authorize_tool_call_iff policy p tool_name qualified_name mutable_tool = ground arith

module _ (jose : Jose) (now : ℕ) (doc : Option (List Fields)) (a : Authorizer) (v : OidcValidator)
    (token : Option String) (on : a.policy.enabled ≡ true) (oidc : a.oidc ≡ some v)
    (given : truthy token ≡ true) where
  -- With a policy that is on and OIDC configured, a request with a bearer token is identified by the
  -- token alone: no X-Agent-Id header changes the result.
  pub identify_ignores_header :
      (header other : Option String)
      → identify jose now doc header token a ≡ identify jose now doc other token a
  unfolding identify
  identify_ignores_header header other = ground arith

  -- With a policy that is on, OIDC configured, and a bearer token in the request: whoever is
  -- identified has a token that validates, is the agent that its claim names, and has the
  -- permissions that the policy lists for that agent.
  pub identify_sound :
      (header : Option String) (p : AgentPrincipal)
      → (identify jose now doc header token a).0 ≡ ok p
      → (payload : Fields) × ((validate jose now doc (get_or token "") v).0 ≡ ok payload)
        × (extract_agent_id jose v.cfg payload ≡ ok p.agent_id)
        × (p.permissions ≡ get_or (lookup p.agent_id a.policy.agent_permissions) [])
  unfolding identify principal_of
  identify_sound header p e = elim (Result-cases (validate jose now doc (get_or token "") v).0) [
    | inl (x, bad) ↦ absurd (ground arith)
    | inr (payload, good) ↦ elim (Result-cases (extract_agent_id jose v.cfg payload)) [
      | inl (x, bad) ↦ absurd (ground arith)
      | inr (agent, named) ↦ (payload, good, ground arith, ground arith)
    ]
  ]
