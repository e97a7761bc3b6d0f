-- ===== src/Schema.antt =====
-- app/guardrails/schema_validator.py: tool arguments against the tool's inputSchema. The jsonschema
-- library is the parameter `draft7`: the errors that its validator of a schema lists for some
-- arguments, or `none` where `iter_errors` raises, as it does on a schema that it cannot read. The
-- constructor of the validator does not look at the schema and raises nothing, so that the handler
-- around it never runs.
mod Tests
use Prim.Native.String.{compare}
use text.Mathlib.Text.{is_lt}
use mcp_gateway_python.Prelude.{
  ℕ, List, String, Bool, Option, none, ◌==◌, ◌∷◌, length, false, ◌≢◌, Result, eqb, ◌≡◌,
  if◌then◌else◌, true, ok, [], err, suc, some, not, arith, refl, map, ltb, ◌↔◌, ap, Option-cases,
  ◌∙◌, inl, inr,
}
use mcp_gateway_python.Json.{Value, Fields, field, no_fields}

-- A step of an error's path: a key or an index.
pub data Segment : Type 0 where
  key : String → Segment
  index : ℕ → Segment

pub record SchemaIssue : Type 0 where
  pub path : List Segment
  pub message : String

-- A reported error; the text of `field` joins the path's steps by dots, and is "$" if there is none.
pub record FieldError : Type 0 where
  pub field_name : List Segment
  pub error : String

-- `SchemaValidationError`, by its field errors.
pub data SchemaValidationError : Type 0 where
  missing_schema : SchemaValidationError
  invalid : List FieldError → SchemaValidationError

-- How `validate` raises: its own error, or an exception of the library that it does not catch.
pub data ValidateError : Type 0 where
  schema_validation_error : SchemaValidationError → ValidateError
  library_error : ValidateError

pub record ToolSchemaValidator : Type 0 where
  pub enabled : Bool
  pub strict_on_missing_schema : Bool

-- Python's order of paths, as lists. Two paths that agree up to a step lead into the same value
-- there, so that a key never meets an index.
segment_lt : Segment → Segment → Bool
segment_lt (key a) (key b) = is_lt (compare a b)
segment_lt (index a) (index b) = ltb a b
segment_lt _ _ = false

same_segment : Segment → Segment → Bool
same_segment (key a) (key b) = a == b
same_segment (index a) (index b) = eqb a b
same_segment _ _ = false

path_lt : List Segment → List Segment → Bool
unfolding segment_lt same_segment
path_lt p [] = false
path_lt [] (b ∷ q) = true
path_lt (a ∷ p) (b ∷ q) = if same_segment a b then path_lt p q else segment_lt a b

-- `sorted(…, key=lambda e: list(e.path))`, which is stable.
insert_issue : SchemaIssue → List SchemaIssue → List SchemaIssue
insert_issue e [] = e ∷ []
insert_issue e (f ∷ fs) = if path_lt f.path e.path then f ∷ insert_issue e fs else e ∷ f ∷ fs

sort_issues : List SchemaIssue → List SchemaIssue
unfolding insert_issue path_lt
sort_issues [] = []
sort_issues (e ∷ es) = insert_issue e (sort_issues es)

to_field_error : SchemaIssue → FieldError
to_field_error e = record { field_name = e.path; error = e.message }

report : List SchemaIssue → Result ValidateError (Unit {0})
unfolding to_field_error
report [] = ok tt
report (e ∷ es) = err (schema_validation_error (invalid (map to_field_error (e ∷ es))))

-- With the errors that the library lists, unless it raises.
by_errors : Option (List SchemaIssue) → Result ValidateError (Unit {0})
unfolding report sort_issues
by_errors none = err library_error
by_errors (some errors) = report (sort_issues errors)

-- Without a schema.
missing : ToolSchemaValidator → Result ValidateError (Unit {0})
missing v =
    if v.strict_on_missing_schema then err (schema_validation_error missing_schema) else ok tt

module _ (draft7 : Fields → Fields → Option (List SchemaIssue)) where
  -- `validate`; a schema that is None or empty is missing.
  unfoldable pub validate :
      ToolSchemaValidator → Fields → Option Fields → Result ValidateError (Unit {0})
  unfolding by_errors missing
  validate v args none = if not v.enabled then ok tt else missing v
  validate v args (some no_fields) = if not v.enabled then ok tt else missing v
  validate v args (some (field k s fs)) =
      if not v.enabled then ok tt else by_errors (draft7 (field k s fs) args)

length-insert_issue :
    (e : SchemaIssue) (es : List SchemaIssue) → length (insert_issue e es) ≡ suc (length es)
unfolding insert_issue
length-insert_issue e [] = refl
length-insert_issue e (f ∷ fs) = ground (arith, length-insert_issue e fs)

length-sort_issues : (es : List SchemaIssue) → length (sort_issues es) ≡ length es
unfolding sort_issues
length-sort_issues [] = refl
length-sort_issues (e ∷ es) =
    omega (arith, length-insert_issue e (sort_issues es), length-sort_issues es)

length-map_report : (es : List SchemaIssue) → length (map to_field_error es) ≡ length es
length-map_report [] = refl
length-map_report (e ∷ es) = cc (length-map_report es)

-- The number of errors that a result reports.
abbrev pub reported : Result ValidateError (Unit {0}) → ℕ
reported (ok _) = 0
reported (err library_error) = 0
reported (err (schema_validation_error missing_schema)) = 1
reported (err (schema_validation_error (invalid es))) = length es

reported-report : (es : List SchemaIssue) → reported (report es) ≡ length es
unfolding report
reported-report [] = refl
reported-report (e ∷ es) = cc (length-map_report es)

reported-sort : (es : List SchemaIssue) → reported (report (sort_issues es)) ≡ length es
reported-sort es = reported-report (sort_issues es) ∙ length-sort_issues es

report_iff : (es : List SchemaIssue) → (report (sort_issues es) ≡ ok tt) ↔ (es ≡ [])
unfolding report sort_issues
report_iff [] = (λ _. refl, λ _. refl)
report_iff (e ∷ es) = (λ h. absurd (omega (arith, ap reported h, reported-sort (e ∷ es))), λ h. cc)

-- A result tells what the library found: that it raised, or how many errors there are, and it lets
-- the call through exactly when there are none.
abbrev pub Tells : Option (List SchemaIssue) → Result ValidateError (Unit {0}) → Type 0
Tells none r = r ≡ err library_error
Tells (some es) r = (reported r ≡ length es) × ((r ≡ ok tt) ↔ (es ≡ []))

by_errors-Tells : (o : Option (List SchemaIssue)) → Tells o (by_errors o)
unfolding by_errors
by_errors-Tells none = refl
by_errors-Tells (some es) = (reported-sort es, report_iff es)

-- Under an enabled validator and a schema that is not empty: where the library finds errors, the
-- call reports as many of them, and it passes exactly when there are none; where the library raises,
-- as it does on a schema that it cannot read, so does the call.
pub reported-validate :
    (draft7 : Fields → Fields → Option (List SchemaIssue)) (v : ToolSchemaValidator) (args : Fields)
    (k : String) (s : Value) (fs : Fields)
    → v.enabled ≡ true
    → Tells (draft7 (field k s fs) args) (validate draft7 v args (some (field k s fs)))
unfolding validate
reported-validate draft7 v args k s fs on = rw on (by_errors-Tells (draft7 (field k s fs) args))
