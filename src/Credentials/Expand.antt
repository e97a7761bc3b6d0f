-- ===== src/Credentials/Expand.antt =====
-- `_resolve_env`: every leftmost match of `\$\{([^}]+)\}` is replaced by the variable that it names.
-- The matcher is a machine: in a match that is begun, any character but `}` belongs to the name.
use Prim.Native.Char.{code}
use mcp_gateway_python.Prelude.{String, Option, get_or, true, false, eqb, ◌==◌, if◌then◌else◌}
use mcp_gateway_python.Prelude.Text.{◌<>◌}

-- `os.environ`
abbrev pub Environ : Type 0
Environ = String → Option String

-- Outside of a match, behind a `$`, or in a match behind `${` with the name so far.
pub data Scan : Type 0 where
  plain behind_dollar : Scan
  in_name : String → Scan

module _ (environ : Environ) where
  -- `os.environ.get(name, "")`; `${}` is no match, and stays.
  unfoldable pub substitute : String → String
  substitute name = if name == "" then "${}" else get_or (environ name) ""

  unfoldable pub expand_from : Scan → String → String
  unfolding substitute
  expand_from plain String.[] = ""
  expand_from plain (String.◌∷◌ c s) = elim (eqb (code c) b'$') [
    | true ↦ expand_from behind_dollar s
    | false ↦ String.◌∷◌ c (expand_from plain s)
  ]
  expand_from behind_dollar String.[] = "$"
  expand_from behind_dollar (String.◌∷◌ c s) = elim (eqb (code c) b'{') [
    | true ↦ expand_from (in_name "") s
    | false ↦ elim (eqb (code c) b'$') [
      | true ↦ "$" <> expand_from behind_dollar s
      | false ↦ "$" <> String.◌∷◌ c (expand_from plain s)
    ]
  ]
  expand_from (in_name n) String.[] = "${" <> n
  expand_from (in_name n) (String.◌∷◌ c s) = elim (eqb (code c) b'}') [
    | true ↦ substitute n <> expand_from plain s
    | false ↦ expand_from (in_name (n <> String.◌∷◌ c "")) s
  ]

  -- `_resolve_env`
  unfoldable pub resolve_env : String → String
  unfolding expand_from
  resolve_env value = expand_from plain value
