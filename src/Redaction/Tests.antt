-- ===== src/Redaction/Tests.antt =====
-- Runs of the redactor.
use mcp_gateway_python.Prelude.Text.{take_chars, drop_chars, ◌<>◌}
use mcp_gateway_python.Prelude.{true, ◌≡◌, some, ◌∷◌, if◌then◌else◌, ◌==◌, [], none, refl, ◌&&◌}
use mcp_gateway_python.Json.{Value, dict, str, list, field, no_fields, item, no_items}
use mcp_gateway_python.Guardrails.Rules.{iter_strings}
use mcp_gateway_python.Redaction.Strings.{sort_spans, RedactionPolicy, Engine, redact_string}
use mcp_gateway_python.Redaction.Walk.{request, redact, walk}
use mcp_gateway_python.Redaction.Shape.{shape, redact-shape}

-- An engine that knows one card number, and an analyzer that takes the first two characters of "Al".
abbrev engine : Engine
engine = record {
  analyze = some (λ es s.
      if s == "Al, hi"
      then some (record { start = 0; stop = 2; entity_type = "PERSON" } ∷ [])
      else none);
  subn = λ e new s. if s == "4111" && e == "CREDIT_CARD" then (new, 1) else (s, 0);
}

abbrev policy : RedactionPolicy
policy = record {
  enabled = true;
  entities = "CREDIT_CARD" ∷ "PERSON" ∷ [];
  redact_requests = true;
  redact_responses = true;
  replacement = λ e. "<REDACTED:" <> e <> ">";
}

abbrev message : Value
message =
    dict (field "to" (str "Al, hi") (field "cards" (list (item (str "4111") no_items)) no_fields))

redacts :
    iter_strings (redact policy engine request message).0
    ≡ "<REDACTED:PERSON>, hi" ∷ "<REDACTED:CREDIT_CARD>" ∷ []
unfolding redact walk redact_string iter_strings take_chars drop_chars sort_spans
redacts = refl

redact-shape_example : shape (redact policy engine request message).0 ≡ shape message
redact-shape_example = redact-shape policy engine request message
