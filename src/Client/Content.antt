-- ===== src/Client/Content.antt =====
-- `_extract_content` and `_tool_to_dict`.
use mcp_gateway_python.Prelude.{
  String, Option, some, Bool, List, [], ◌∷◌, Result, ok, err, get_or, if◌then◌else◌,
}
use mcp_gateway_python.Prelude.Int.{ℤ, negsuc}
use mcp_gateway_python.Json.{
  Value, str, dict, list, Fields, no_fields, field, Items, no_items, item,
}
use mcp_gateway_python.Registry.Naming.{RawTool}

-- `UpstreamError`: its message and code.
pub record UpstreamError : Type 0 where
  pub message : String
  pub code : ℤ

-- A content block of the SDK; a resource is given as its `model_dump`, another block as its `str`.
pub data Block : Type 0 where
  text_block : String → Block
  image_block : String → String → Block
  resource_block : Value → Block
  other_block : String → Block

pub record CallToolResult : Type 0 where
  pub content : List Block
  pub is_error : Bool

abbrev pub part_of : Block → Value
part_of (text_block t) = str t
part_of (image_block mime bytes) =
    dict (
      field "type" (str "image") (field "mimeType" (str mime) (field "data" (str bytes) no_fields)))
part_of (resource_block r) = dict (field "type" (str "resource") (field "resource" r no_fields))
part_of (other_block s) = str s

abbrev pub parts_of : List Block → Items
parts_of [] = no_items
parts_of (b ∷ bs) = item (part_of b) (parts_of bs)

-- `parts[0] if len(parts) == 1 else parts`
unfoldable pub payload : List Block → Value
payload (b ∷ []) = part_of b
payload bs = list (parts_of bs)

-- -32603, -32002, -32001 and -32000
abbrev pub internal_error : ℤ
internal_error = negsuc 32602

abbrev pub auth_failed : ℤ
auth_failed = negsuc 32001

abbrev pub circuit_open : ℤ
circuit_open = negsuc 32000

abbrev pub server_error : ℤ
server_error = negsuc 31999

-- `_extract_content`, with Python's `str` of a payload.
unfoldable pub extract_content : (Value → String) → CallToolResult → Result UpstreamError Value
unfolding payload
extract_content str_of r =
    if r.is_error
    then err (record { message = str_of (payload r.content); code = internal_error })
    else ok (payload r.content)

-- A tool of the SDK. Its schema is a dict, a model with its dump, or something else.
pub data InputSchema : Type 0 where
  schema_dict : Fields → InputSchema
  schema_model : Fields → InputSchema
  schema_other : InputSchema

pub record Tool : Type 0 where
  pub name : String
  pub description : Option String
  pub input_schema : InputSchema

abbrev pub schema_fields : InputSchema → Fields
schema_fields (schema_dict fs) = fs
schema_fields (schema_model fs) = fs
schema_fields schema_other = no_fields

-- `_tool_to_dict`
unfoldable pub tool_to_dict : Tool → RawTool
tool_to_dict t = record {
  name = t.name;
  description = some (get_or t.description "");
  input_schema = schema_fields t.input_schema;
}
