-- ===== src/Redaction/Walk.antt =====
-- `redact` and `_walk`.
use mcp_gateway_python.Prelude.{
  Bool, ◌≡◌, String, false, map, if◌then◌else◌, any, not, ◌||◌, arith, refl, map-append, any-append,
}
use mcp_gateway_python.Json.{
  Value, null, bool, num, str, list, dict, Items, no_items, item, Fields, no_fields, field,
}
use mcp_gateway_python.Guardrails.Rules.{iter_strings, iter_items, iter_fields}
use mcp_gateway_python.Redaction.Strings.{RedactionPolicy, Engine, redact_string}

pub data Direction : Type 0 where
  request response : Direction

module _ (policy : RedactionPolicy) (engine : Engine) where
  unfoldable mutual
    pub walk : Value → Value × Bool
    walk null = (null, false)
    walk (bool b) = (bool b, false)
    walk (num n) = (num n, false)
    walk (str s) = let (t, c) = redact_string policy engine s in (str t, c)
    walk (list xs) = let (ys, c) = walk_items xs in (list ys, c)
    walk (dict fs) = let (gs, c) = walk_fields fs in (dict gs, c)

    pub walk_items : Items → Items × Bool
    walk_items no_items = (no_items, false)
    walk_items (item v xs) =
        let (w, c) = walk v in let (ys, d) = walk_items xs in (item w ys, c || d)

    pub walk_fields : Fields → Fields × Bool
    walk_fields no_fields = (no_fields, false)
    walk_fields (field k v fs) =
        let (w, c) = walk v in let (gs, d) = walk_fields fs in (field k w gs, c || d)

  -- `redact`
  unfoldable pub redact : Direction → Value → Value × Bool
  redact request v = if not policy.enabled || not policy.redact_requests then (v, false) else walk v
  redact response v =
      if not policy.enabled || not policy.redact_responses then (v, false) else walk v

  abbrev pub redacted : String → String
  redacted s = (redact_string policy engine s).0

  abbrev pub touched : String → Bool
  touched s = (redact_string policy engine s).1

  mutual
    unfolding walk iter_strings

    pub walk-strings :
        (v : Value)
        → (iter_strings (walk v).0 ≡ map redacted (iter_strings v))
          × ((walk v).1 ≡ any touched (iter_strings v))
    walk-strings null = (refl, refl)
    walk-strings (bool b) = (refl, refl)
    walk-strings (num n) = (refl, refl)
    walk-strings (str s) = (refl, ground arith)
    walk-strings (list xs) = walk_items-strings xs
    walk-strings (dict fs) = walk_fields-strings fs

    walk_items-strings :
        (xs : Items)
        → (iter_items (walk_items xs).0 ≡ map redacted (iter_items xs))
          × ((walk_items xs).1 ≡ any touched (iter_items xs))
    walk_items-strings no_items = (refl, refl)
    walk_items-strings (item v xs) =
        let (a, b) = walk-strings v in
        let (c, d) = walk_items-strings xs in (rw (a, c, map-append), rw (b, d, any-append))

    walk_fields-strings :
        (fs : Fields)
        → (iter_fields (walk_fields fs).0 ≡ map redacted (iter_fields fs))
          × ((walk_fields fs).1 ≡ any touched (iter_fields fs))
    walk_fields-strings no_fields = (refl, refl)
    walk_fields-strings (field k v fs) =
        let (a, b) = walk-strings v in
        let (c, d) = walk_fields-strings fs in (rw (a, c, map-append), rw (b, d, any-append))
