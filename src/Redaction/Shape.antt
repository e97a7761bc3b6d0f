-- ===== src/Redaction/Shape.antt =====
-- What redaction leaves of a value.
use mcp_gateway_python.Prelude.{◌≡◌, refl, arith}
use mcp_gateway_python.Json.{
  Value, null, bool, num, str, list, dict, Items, no_items, item, Fields, no_fields, field,
}
use mcp_gateway_python.Redaction.Strings.{RedactionPolicy, Engine}
use mcp_gateway_python.Redaction.Walk.{
  Direction, request, response, redact, walk, walk_items, walk_fields,
}

-- A value with every text emptied: its lists, its dicts with their keys, and its other leaves.
unfoldable mutual
  pub shape : Value → Value
  shape null = null
  shape (bool b) = bool b
  shape (num n) = num n
  shape (str s) = str ""
  shape (list xs) = list (shape_items xs)
  shape (dict fs) = dict (shape_fields fs)

  pub shape_items : Items → Items
  shape_items no_items = no_items
  shape_items (item v xs) = item (shape v) (shape_items xs)

  pub shape_fields : Fields → Fields
  shape_fields no_fields = no_fields
  shape_fields (field k v fs) = field k (shape v) (shape_fields fs)

module _ (policy : RedactionPolicy) (engine : Engine) where
  mutual
    unfolding walk shape

    walk-shape : (v : Value) → shape (walk policy engine v).0 ≡ shape v
    walk-shape null = refl
    walk-shape (bool b) = refl
    walk-shape (num n) = refl
    walk-shape (str s) = refl
    walk-shape (list xs) = cc (walk_items-shape xs)
    walk-shape (dict fs) = cc (walk_fields-shape fs)

    walk_items-shape : (xs : Items) → shape_items (walk_items policy engine xs).0 ≡ shape_items xs
    walk_items-shape no_items = refl
    walk_items-shape (item v xs) = cc (walk-shape v, walk_items-shape xs)

    walk_fields-shape :
        (fs : Fields) → shape_fields (walk_fields policy engine fs).0 ≡ shape_fields fs
    walk_fields-shape no_fields = refl
    walk_fields-shape (field k v fs) = cc (walk-shape v, walk_fields-shape fs)

  -- Whatever the policy and the engine, redaction keeps a value's type: the structure of lists and
  -- dicts, the keys and every leaf that is not a text are as before, and a text stays a text.
  pub redact-shape : (d : Direction) (v : Value) → shape (redact policy engine d v).0 ≡ shape v
  unfolding redact
  redact-shape request v = ground (arith, walk-shape v)
  redact-shape response v = ground (arith, walk-shape v)
