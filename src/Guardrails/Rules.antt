-- ===== src/Guardrails/Rules.antt =====
-- `_check_rule` and `check`. The `re` engine is the parameter `search`, which tells whether a
-- pattern, compiled with IGNORECASE, is found in a text, and `str.lower` is the parameter `lower`,
-- whose result is a list of code points: the tables of Unicode are not modelled.
use mcp_gateway_python.Prelude.{
  ℕ, String, Bool, not, ◌&&◌, none, some, if◌then◌else◌, Dict, lookup, List, [], ◌∷◌, ◌++◌, map,
  Result, ok, err, ◌>>◌, ◌==◌,
}
use mcp_gateway_python.Prelude.Int.{ℤ, ltb_ℤ}
use mcp_gateway_python.Prelude.Text.{is_in}
use mcp_gateway_python.Json.{
  Value, null, bool, num, str, list, dict, Items, no_items, item, Fields, no_fields, field,
  get_field,
}

pub record SafetyRule : Type 0 where
  pub name : String
  pub tool : String
  pub forbidden_substrings : List String
  pub numeric_ranges : Dict (Dict ℤ)
  pub forbidden_regex : List String

pub record GuardrailsPolicy : Type 0 where
  pub enabled : Bool
  pub rules : List SafetyRule

-- The four messages of a violation.
pub data Detail : Type 0 where
  forbidden_substring : List ℕ → Detail
  forbidden_pattern : String → Detail
  below_min : String → ℤ → ℤ → Detail
  above_max : String → ℤ → ℤ → Detail

pub record GuardrailViolation : Type 0 where
  pub rule : String
  pub detail : Detail

-- `_CompiledRule`
pub record CompiledRule : Type 0 where
  pub rule : SafetyRule
  pub regexes : List String
  pub forbidden_lower : List (List ℕ)

unfoldable pub compile : (String → List ℕ) → SafetyRule → CompiledRule
compile lower r = record {
  rule = r;
  regexes = r.forbidden_regex;
  forbidden_lower = map lower r.forbidden_substrings;
}

-- `_iter_strings`
unfoldable mutual
  pub iter_strings : Value → List String
  iter_strings null = []
  iter_strings (bool b) = []
  iter_strings (num n) = []
  iter_strings (str s) = s ∷ []
  iter_strings (list xs) = iter_items xs
  iter_strings (dict fs) = iter_fields fs

  pub iter_items : Items → List String
  iter_items no_items = []
  iter_items (item v xs) = iter_strings v ++ iter_items xs

  pub iter_fields : Fields → List String
  iter_fields no_fields = []
  iter_fields (field k v fs) = iter_strings v ++ iter_fields fs

module _ (name : String) where
  unfoldable pub check_substrings : List (List ℕ) → List ℕ → Result GuardrailViolation (Unit {0})
  check_substrings [] low = ok tt
  check_substrings (bad ∷ bads) low =
      if is_in bad low
      then err (record { rule = name; detail = forbidden_substring bad })
      else check_substrings bads low

  unfoldable pub check_range : String → Value → Dict ℤ → Result GuardrailViolation (Unit {0})
  check_range arg (num n) bounds = do
    elim (lookup "min" bounds) [
      | none ↦ ok tt
      | some lo ↦
          if ltb_ℤ n lo then err (record { rule = name; detail = below_min arg n lo }) else ok tt
    ]
    elim (lookup "max" bounds) [
      | none ↦ ok tt
      | some hi ↦
          if ltb_ℤ hi n then err (record { rule = name; detail = above_max arg n hi }) else ok tt
    ]
  check_range arg _ bounds = ok tt

  unfoldable pub check_ranges : Dict (Dict ℤ) → Fields → Result GuardrailViolation (Unit {0})
  unfolding check_range
  check_ranges [] args = ok tt
  check_ranges ((arg, bounds) ∷ ranges) args = do
    elim (get_field arg args) [ none ↦ ok tt | some v ↦ check_range arg v bounds ]
    check_ranges ranges args

module _ (search : String → String → Bool) where
  unfoldable pub check_regexes :
      String → List String → String → Result GuardrailViolation (Unit {0})
  check_regexes name [] s = ok tt
  check_regexes name (p ∷ ps) s =
      if search p s
      then err (record { rule = name; detail = forbidden_pattern p })
      else check_regexes name ps s

module _ (lower : String → List ℕ) (search : String → String → Bool) where
  unfoldable pub check_strings : CompiledRule → List String → Result GuardrailViolation (Unit {0})
  unfolding check_substrings check_regexes
  check_strings c [] = ok tt
  check_strings c (s ∷ ss) = do
    check_substrings c.rule.name c.forbidden_lower (lower s)
    check_regexes search c.rule.name c.regexes s
    check_strings c ss

  -- `_check_rule`
  unfoldable pub check_rule : CompiledRule → String → Fields → Result GuardrailViolation (Unit {0})
  unfolding iter_fields check_strings check_ranges
  check_rule c tool args =
      if not (c.rule.tool == "*") && not (c.rule.tool == tool) then ok tt else do
        check_strings c (iter_strings (dict args))
        check_ranges c.rule.name c.rule.numeric_ranges args

  unfoldable pub check_rules :
      List CompiledRule → String → Fields → Result GuardrailViolation (Unit {0})
  unfolding check_rule
  check_rules [] tool args = ok tt
  check_rules (c ∷ cs) tool args = do check_rule c tool args; check_rules cs tool args

  -- `SafetyFilter.check`, on a filter built from the policy.
  unfoldable pub check : GuardrailsPolicy → String → Fields → Result GuardrailViolation (Unit {0})
  unfolding check_rules compile
  check policy tool args =
      if not policy.enabled then ok tt else check_rules (map (compile lower) policy.rules) tool args
