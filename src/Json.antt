-- ===== src/Json.antt =====
-- JSON values, which tool arguments, schemas and results are made of. A number is an integer
-- in a fixed unit, so that a bound and a value compare as the source's floats do.
use mcp_gateway_python.Prelude.{String, Bool, Option, none, some, ◌==◌, if◌then◌else◌}
use mcp_gateway_python.Prelude.Int.{ℤ}

mutual
  pub data Value : Type 0 where
    str : String → Value
    dict : Fields → Value
    list : Items → Value
    num : ℤ → Value
    bool : Bool → Value
    null : Value

  -- A dict with text keys, in insertion order.
  pub data Fields : Type 0 where
    no_fields : Fields
    field : String → Value → Fields → Fields

  pub data Items : Type 0 where
    no_items : Items
    item : Value → Items → Items

-- `d.get(k)`
unfoldable pub get_field : String → Fields → Option Value
get_field k no_fields = none
get_field k (field j v fs) = if j == k then some v else get_field k fs
