-- ===== src/App/Config.antt =====
-- `GatewayConfig` and its validator. What YAML and pydantic make of the file is an argument, field by
-- field.
use mcp_gateway_python.Prelude.{
  ℕ, String, Bool, List, [], ◌∷◌, map, length, elem, Dict, Result, ok, err, eqb, ◌≡◌, ◌↔◌,
  IsDistinct, if◌then◌else◌, ◌≤◌, arith,
}
use mcp_gateway_python.Registry.Servers.{UpstreamServer, NamingConfig}
use mcp_gateway_python.Auth.Authorizer.{AuthPolicy}
use mcp_gateway_python.Redaction.Strings.{RedactionPolicy}
use mcp_gateway_python.Guardrails.Rules.{GuardrailsPolicy}
use mcp_gateway_python.Cache.Tools.{CacheConfig}
use mcp_gateway_python.Webhooks.Dispatcher.{WebhookConfig}

pub record RateLimitingPolicy : Type 0 where
  pub enabled : Bool
  pub default_agent_rate : ℕ
  pub default_agent_burst : ℕ
  pub default_tool_rate : ℕ
  pub default_tool_burst : ℕ
  pub agents : Dict (Dict ℕ)
  pub tools : Dict (Dict ℕ)

pub record CircuitBreakerPolicy : Type 0 where
  pub enabled : Bool
  pub failure_threshold : ℕ
  pub recovery_timeout : ℕ
  pub probe_successes : ℕ

pub record SchemaValidationConfig : Type 0 where
  pub enabled : Bool
  pub strict_on_missing_schema : Bool

pub record GatewayConfig : Type 0 where
  pub upstreams : List UpstreamServer
  pub auth : AuthPolicy
  pub redaction : RedactionPolicy
  pub guardrails : GuardrailsPolicy
  pub rate_limiting : RateLimitingPolicy
  pub circuit_breaker : CircuitBreakerPolicy
  pub naming : NamingConfig
  pub schema_validation : SchemaValidationConfig
  pub cache : CacheConfig
  pub webhooks : List WebhookConfig

abbrev pub ids_of : List UpstreamServer → List String
ids_of ss = map (λ s. s.id) ss

-- `set(ids)`, as the list of the last occurrences.
unfoldable pub set_of : List String → List String
set_of [] = []
set_of (x ∷ xs) = let rest = set_of xs in if elem x xs then rest else x ∷ rest

-- `_unique_ids`
unfoldable pub unique_ids : List UpstreamServer → Result String (List UpstreamServer)
unfolding set_of
unique_ids v =
    if eqb (length (ids_of v)) (length (set_of (ids_of v)))
    then ok v
    else err "upstream server ids must be unique"

length-set_of : (xs : List String) → length (set_of xs) ≤ length xs
unfolding set_of
length-set_of [] = omega arith
length-set_of (x ∷ xs) = ground (arith, length-set_of xs)

set_of-IsDistinct : (xs : List String) → length xs ≡ length (set_of xs) → IsDistinct xs
unfolding set_of
set_of-IsDistinct [] h = tt
set_of-IsDistinct (x ∷ xs) h = ground (arith, set_of-IsDistinct xs, length-set_of xs)

IsDistinct-set_of : (xs : List String) → IsDistinct xs → length xs ≡ length (set_of xs)
unfolding set_of
IsDistinct-set_of [] d = omega arith
IsDistinct-set_of (x ∷ xs) d = ground (arith, IsDistinct-set_of xs d.1)

-- The validator accepts a list of servers, and leaves it as it is, exactly when no id occurs twice.
pub unique_ids_iff : (v : List UpstreamServer) → (unique_ids v ≡ ok v) ↔ IsDistinct (ids_of v)
unfolding unique_ids
unique_ids_iff v = (
  (λ h. set_of-IsDistinct (ids_of v) (ground arith)),
  λ d. let same = IsDistinct-set_of (ids_of v) d in ground arith,
)
