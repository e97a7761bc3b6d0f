-- ===== src/Guardrails/Tests.antt =====
-- Runs of the filter, and its theorem at an input.
use mcp_gateway_python.Prelude.Text.{lower, is_in}
use mcp_gateway_python.Prelude.{
  String, lookup, true, ◌≡◌, ◌∷◌, Bool, ok, ◌↔◌, [], ◌==◌, false, ◌⊎◌, refl, All, err,
}
use mcp_gateway_python.Prelude.Int.{pos}
use mcp_gateway_python.Json.{Fields, field, list, item, str, no_items, num, no_fields, get_field}
use mcp_gateway_python.Guardrails.Rules.{GuardrailsPolicy, check, iter_strings, above_max}
use mcp_gateway_python.Guardrails.Decision.{Respects, check_iff}

-- An engine in which a pattern is found where it is the whole text.
abbrev whole : String → String → Bool
whole p s = p == s

abbrev policy : GuardrailsPolicy
policy = record {
  enabled = true;
  rules =
      record {
        name = "no-destructive-sql";
        tool = "execute_sql";
        forbidden_substrings = "DROP TABLE" ∷ [];
        numeric_ranges = ("limit", ("min", pos 1) ∷ ("max", pos 1000) ∷ []) ∷ [];
        forbidden_regex = [];
      }
      ∷ [];
}

abbrev harmless : Fields
harmless =
    field "sql" (list (item (str "select 1") no_items)) (field "limit" (num (pos 10)) no_fields)

passes : check lower whole policy "execute_sql" harmless ≡ ok tt
unfolding check lookup get_field lower is_in iter_strings
passes = refl

blocked :
    check lower whole policy "execute_sql" (field "limit" (num (pos 1001)) no_fields)
    ≡ err (record { rule = "no-destructive-sql"; detail = above_max "limit" (pos 1001) (pos 1000) })
unfolding check lookup get_field lower is_in iter_strings
blocked = refl

check_iff_example :
    (check lower whole policy "execute_sql" harmless ≡ ok tt)
    ↔ ((policy.enabled ≡ false) ⊎ All (Respects lower whole "execute_sql" harmless) policy.rules)
check_iff_example = check_iff lower whole "execute_sql" harmless policy
