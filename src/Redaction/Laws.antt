-- ===== src/Redaction/Laws.antt =====
-- What redaction does to a value.
use mcp_gateway_python.Prelude.{◌≡◌, Bool, true, map, any, arith}
use mcp_gateway_python.Json.{Value}
use mcp_gateway_python.Guardrails.Rules.{iter_strings}
use mcp_gateway_python.Redaction.Strings.{RedactionPolicy, Engine}
use mcp_gateway_python.Redaction.Walk.{
  Direction, request, response, redact, redacted, touched, walk-strings,
}

abbrev pub asked : RedactionPolicy → Direction → Bool
asked policy request = policy.redact_requests
asked policy response = policy.redact_responses

-- With the policy on for a direction, redaction rewrites every text of a value, at any depth and in
-- order, by `redact_string`, and reports a change exactly if one of them reports one.
pub redact-strings :
    (policy : RedactionPolicy) (engine : Engine) (d : Direction) (v : Value)
    → policy.enabled ≡ true
    → asked policy d ≡ true
    → (iter_strings (redact policy engine d v).0 ≡ map (redacted policy engine) (iter_strings v))
      × ((redact policy engine d v).1 ≡ any (touched policy engine) (iter_strings v))
unfolding redact
redact-strings policy engine request v on ask = ground (arith, walk-strings policy engine v)
redact-strings policy engine response v on ask = ground (arith, walk-strings policy engine v)
