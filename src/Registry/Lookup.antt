-- ===== src/Registry/Lookup.antt =====
-- `find_by_qualified_tool` and `list_conflicts`.
use mcp_gateway_python.Prelude.{
  String, Dict, List, insert, Option, ◌∷◌, select, ltb, get_or, none, some, [], if◌then◌else◌, ◌++◌,
  values, ◌==◌, lookup, length, not,
}
use mcp_gateway_python.Prelude.Text.{has_char, before, after, dot}
use mcp_gateway_python.Registry.Servers.{ToolDefinition, RegistryEntry, ServerRegistry, prefix_of}

-- The first tool of an entry with the qualified name.
unfoldable pub exact_in :
    String → RegistryEntry → List ToolDefinition → Option (RegistryEntry × String)
exact_in q e [] = none
exact_in q e (td ∷ tds) = if td.qualified_name == q then some (e, td.name) else exact_in q e tds

unfoldable pub exact : String → List RegistryEntry → Option (RegistryEntry × String)
unfolding exact_in
exact q [] = none
exact q (e ∷ es) =
    let rest = exact q es in elim (exact_in q e e.tools) [ some found ↦ some found | none ↦ rest ]

unfoldable pub by_prefix : String → String → List RegistryEntry → Option (RegistryEntry × String)
by_prefix prefix raw [] = none
by_prefix prefix raw (e ∷ es) =
    if prefix_of e.server == prefix then some (e, raw) else by_prefix prefix raw es

unfoldable pub matches_in :
    String → RegistryEntry → List ToolDefinition → List (RegistryEntry × String)
matches_in q e [] = []
matches_in q e (td ∷ tds) = if td.name == q then (e, q) ∷ matches_in q e tds else matches_in q e tds

unfoldable pub bare_matches : String → List RegistryEntry → List (RegistryEntry × String)
unfolding matches_in
bare_matches q [] = []
bare_matches q (e ∷ es) = matches_in q e e.tools ++ bare_matches q es

unfoldable pub the_only : List (RegistryEntry × String) → Option (RegistryEntry × String)
the_only (m ∷ []) = some m
the_only _ = none

-- `find_by_qualified_tool`
unfoldable pub find_by_qualified_tool : String → ServerRegistry → Option (RegistryEntry × String)
unfolding exact by_prefix bare_matches the_only
find_by_qualified_tool q r =
    let es = values r.entries in
    let third = the_only (bare_matches q es) in
    elim (exact q es) [
      | some found ↦ some found
      | none ↦
          if has_char dot q
          then elim (by_prefix (before dot q) (after dot q) es) [
            | some found ↦ some found
            | none ↦ third
          ]
          else third
    ]

-- `seen.setdefault(name, []).append(server_id)`
unfoldable pub see : String → String → Dict (List String) → Dict (List String)
see name sid seen = insert name (get_or (lookup name seen) [] ++ sid ∷ []) seen

unfoldable pub see_tools : String → List ToolDefinition → Dict (List String) → Dict (List String)
unfolding see
see_tools sid [] seen = seen
see_tools sid (td ∷ tds) seen = see_tools sid tds (see td.name sid seen)

unfoldable pub seen_in : List RegistryEntry → Dict (List String) → Dict (List String)
unfolding see_tools
seen_in [] seen = seen
seen_in (e ∷ es) seen =
    seen_in es (if not e.server.enabled then seen else see_tools e.server.id e.tools seen)

-- `list_conflicts`
unfoldable pub list_conflicts : ServerRegistry → Dict (List String)
unfolding seen_in
list_conflicts r = select (λ c. ltb 1 (length c.1)) (seen_in (values r.entries) [])
