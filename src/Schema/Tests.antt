-- ===== src/Schema/Tests.antt =====
-- Runs of the validator, and its theorem at an input.
use mcp_gateway_python.Prelude.{refl, is_some, ◌∷◌, []}
use mcp_gateway_python.Json.{Fields, field, no_fields, str, get_field}
use mcp_gateway_python.Schema.{
  SchemaIssue, key, ToolSchemaValidator, validate, reported, Tells, reported-validate,
  library_error, true, Option, some, none, List, ◌≡◌, false, if◌then◌else◌, err,
}

-- A library that finds two errors in arguments with a field "a", and none in others, and cannot
-- read a schema with a reference.
abbrev toy : Fields → Fields → Option (List SchemaIssue)
toy schema args =
    if is_some (get_field "$ref" schema)
    then none
    else if is_some (get_field "a" args)
    then some (
        record { path = key "b" ∷ []; message = "second" }
        ∷ record { path = key "a" ∷ []; message = "first" }
        ∷ [])
    else some []

abbrev on : ToolSchemaValidator
on = record { enabled = true; strict_on_missing_schema = false }

blocks :
    reported (
      validate toy on
        (field "a" (str "x") no_fields)
        (some (field "type" (str "object") no_fields)))
    ≡ 2
unfolding validate get_field
blocks = refl

crashes : validate toy on no_fields (some (field "$ref" (str "?") no_fields)) ≡ err library_error
unfolding validate get_field
crashes = refl

reported-validate_example :
    Tells
      (toy (field "type" (str "object") no_fields) no_fields)
      (validate toy on no_fields (some (field "type" (str "object") no_fields)))
reported-validate_example = reported-validate toy on no_fields "type" (str "object") no_fields refl
