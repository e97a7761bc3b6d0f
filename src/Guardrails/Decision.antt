-- ===== src/Guardrails/Decision.antt =====
-- What the filter lets through, against a description of clean arguments.
use mcp_gateway_python.Prelude.{
  ℕ, Result, Option, Bool, Dict, String, some, All, ◌>>◌, ◌≡◌, false, ok, ◌⊎◌, lookup, err, ◌↔◌,
  none, if◌then◌else◌, arith, List, refl, map, ◌∷◌, [], ◌==◌, inl, inr, not, ◌&&◌, true,
}
use mcp_gateway_python.Prelude.Int.{ℤ, ltb_ℤ}
use mcp_gateway_python.Prelude.Text.{is_in}
use mcp_gateway_python.Json.{Value, null, num, dict, Fields, get_field}
use mcp_gateway_python.Guardrails.Rules.{
  SafetyRule, GuardrailsPolicy, GuardrailViolation, compile, iter_strings, check_substrings,
  check_range, check_ranges, check_regexes, check_strings, check_rule, check_rules, check,
  above_max, below_min,
}

-- A call that returns means `P`.
abbrev Passes : Type 0 → Result GuardrailViolation (Unit {0}) → Type 0
Passes P r = (r ≡ ok tt) ↔ P

Passes-seq :
    {P Q : Type 0} (r s : Result GuardrailViolation (Unit {0}))
    → Passes P r
    → Passes Q s
    → Passes (P × Q) (r >> s)
Passes-seq (ok u) s p q = (λ e. (p.0 refl, q.0 e), λ h. q.1 h.1)
Passes-seq (err x) s p q = (λ e. cc, λ h. p.1 h.0)

Passes-test : (b : Bool) (v : GuardrailViolation) → Passes (b ≡ false) (if b then err v else ok tt)
Passes-test b v = ground arith

Passes-unless :
    {P : Type 0} (b c : Bool) {r : Result GuardrailViolation (Unit {0})}
    → Passes P r
    → Passes (((b ≡ false) × (c ≡ false)) ⊎ P) (if not b && not c then ok tt else r)
Passes-unless true c p = (λ e. inr (p.0 e), λ h. elim h [ inl x ↦ cc | inr y ↦ p.1 y ])
Passes-unless false true p = (λ e. inr (p.0 e), λ h. elim h [ inl x ↦ cc | inr y ↦ p.1 y ])
Passes-unless false false p = (λ e. inl (refl, refl), λ h. refl)

-- A JSON value is within bounds: one that is no number always is, and `true` is none.
abbrev pub AtLeast : ℤ → Option ℤ → Type 0
AtLeast n none = Unit
AtLeast n (some lo) = ltb_ℤ n lo ≡ false

abbrev pub AtMost : ℤ → Option ℤ → Type 0
AtMost n none = Unit
AtMost n (some hi) = ltb_ℤ hi n ≡ false

abbrev pub InRange : Dict ℤ → Option Value → Type 0
InRange bounds (some (num n)) = AtLeast n (lookup "min" bounds) × AtMost n (lookup "max" bounds)
InRange bounds _ = Unit

-- No forbidden text, where both are lowered, and no forbidden pattern occurs in a text.
abbrev pub IsHarmless : (String → List ℕ) → (String → String → Bool) → SafetyRule → String → Type 0
IsHarmless lower search r s =
    All (λ bad. is_in (lower bad) (lower s) ≡ false) r.forbidden_substrings
    × All (λ p. search p s ≡ false) r.forbidden_regex

abbrev pub Respects :
    (String → List ℕ) → (String → String → Bool) → String → Fields → SafetyRule → Type 0
Respects lower search tool args r =
    (((r.tool == "*") ≡ false) × ((r.tool == tool) ≡ false))
    ⊎ (All (IsHarmless lower search r) (iter_strings (dict args))
        × All (λ range. InRange range.1 (get_field range.0 args)) r.numeric_ranges)

module _ (lower : String → List ℕ) (search : String → String → Bool) (r : SafetyRule) where
  substrings_iff :
      (s : String) (bads : List String)
      → Passes
          (All (λ bad. is_in (lower bad) (lower s) ≡ false) bads)
          (check_substrings r.name (map lower bads) (lower s))
  unfolding check_substrings
  substrings_iff s [] = (λ _. tt, λ _. refl)
  substrings_iff s (bad ∷ bads) = ground (arith, substrings_iff s bads)

  regexes_iff :
      (s : String) (ps : List String)
      → Passes (All (λ p. search p s ≡ false) ps) (check_regexes search r.name ps s)
  unfolding check_regexes
  regexes_iff s [] = (λ _. tt, λ _. refl)
  regexes_iff s (p ∷ ps) = ground (arith, regexes_iff s ps)

  strings_iff :
      (ss : List String)
      → Passes
          (All (IsHarmless lower search r) ss)
          (check_strings lower search (compile lower r) ss)
  unfolding check_strings compile
  strings_iff [] = (λ _. tt, λ _. refl)
  strings_iff (s ∷ ss) =
      let t =
        Passes-seq _ _ (substrings_iff s r.forbidden_substrings)
          (Passes-seq _ _ (regexes_iff s r.forbidden_regex) (strings_iff ss)) in
      (λ e. let h = t.0 e in ((h.0, h.1.0), h.1.1), λ h. t.1 (h.0.0, (h.0.1, h.1)))

  AtLeast-iff :
      (arg : String) (n : ℤ) (o : Option ℤ)
      → Passes (AtLeast n o) (elim o [
        | none ↦ ok tt
        | some lo ↦
            if ltb_ℤ n lo
            then err (record { rule = r.name; detail = below_min arg n lo })
            else ok tt
      ])
  AtLeast-iff arg n none = (λ _. tt, λ _. refl)
  AtLeast-iff arg n (some lo) = Passes-test (ltb_ℤ n lo) _

  AtMost-iff :
      (arg : String) (n : ℤ) (o : Option ℤ)
      → Passes (AtMost n o) (elim o [
        | none ↦ ok tt
        | some hi ↦
            if ltb_ℤ hi n
            then err (record { rule = r.name; detail = above_max arg n hi })
            else ok tt
      ])
  AtMost-iff arg n none = (λ _. tt, λ _. refl)
  AtMost-iff arg n (some hi) = Passes-test (ltb_ℤ hi n) _

  range_iff :
      (arg : String) (v : Value) (bounds : Dict ℤ)
      → Passes (InRange bounds (some v)) (check_range r.name arg v bounds)
  unfolding check_range
  range_iff arg null bounds = (λ _. tt, λ _. refl)
  range_iff arg (num n) bounds =
      Passes-seq _ _ (AtLeast-iff arg n (lookup "min" bounds))
        (AtMost-iff arg n (lookup "max" bounds))
  range_iff arg _ bounds = (λ _. tt, λ _. refl)

  found_iff :
      (arg : String) (bounds : Dict ℤ) (o : Option Value)
      → Passes
          (InRange bounds o)
          (elim o [ none ↦ ok tt | some v ↦ check_range r.name arg v bounds ])
  found_iff arg bounds none = (λ _. tt, λ _. refl)
  found_iff arg bounds (some v) = range_iff arg v bounds

  ranges_iff :
      (args : Fields) (ranges : Dict (Dict ℤ))
      → Passes
          (All (λ range. InRange range.1 (get_field range.0 args)) ranges)
          (check_ranges r.name ranges args)
  unfolding check_ranges
  ranges_iff args [] = (λ _. tt, λ _. refl)
  ranges_iff args ((arg, bounds) ∷ ranges) =
      Passes-seq _ _ (found_iff arg bounds (get_field arg args)) (ranges_iff args ranges)

  rule_iff :
      (tool : String) (args : Fields)
      → Passes
          (Respects lower search tool args r)
          (check_rule lower search (compile lower r) tool args)
  unfolding check_rule compile
  rule_iff tool args =
      let body =
        Passes-seq _ _ (strings_iff (iter_strings (dict args)))
          (ranges_iff args r.numeric_ranges) in
      Passes-unless (r.tool == "*") (r.tool == tool) body

module _ (lower : String → List ℕ) (search : String → String → Bool) (tool : String)
    (args : Fields) where
  rules_iff :
      (rules : List SafetyRule)
      → Passes
          (All (Respects lower search tool args) rules)
          (check_rules lower search (map (compile lower) rules) tool args)
  unfolding check_rules
  rules_iff [] = (λ _. tt, λ _. refl)
  rules_iff (r ∷ rules) = Passes-seq _ _ (rule_iff lower search r tool args) (rules_iff rules)

  -- With the policy on, the filter lets a call through exactly when every rule for the tool finds
  -- every text of the arguments, at any depth, free of its patterns and, once both are lowered, of
  -- its texts, and every number that it bounds in range; with the policy off every call passes.
  pub check_iff :
      (policy : GuardrailsPolicy)
      → (check lower search policy tool args ≡ ok tt)
        ↔ ((policy.enabled ≡ false) ⊎ All (Respects lower search tool args) policy.rules)
  unfolding check
  check_iff policy = ground (arith, rules_iff policy.rules)
