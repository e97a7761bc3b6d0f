-- ===== src/Registry/Conflicts.antt =====
-- `list_conflicts` against the servers that list a name.
use mcp_gateway_python.Prelude.{
  String, not, List, [], ◌∷◌, ◌++◌, Dict, lookup, get_or, if◌then◌else◌, ◌==◌,
}
use mcp_gateway_python.Registry.Servers.{ToolDefinition, RegistryEntry}

-- The server, once for each of the tools of that name.
abbrev pub listing : String → String → List ToolDefinition → List String
listing name sid [] = []
listing name sid (td ∷ tds) =
    if td.name == name then sid ∷ listing name sid tds else listing name sid tds

-- The enabled servers with a tool of that name, in the order of the entries.
abbrev pub owners : String → List RegistryEntry → List String
owners name [] = []
owners name (e ∷ es) =
    if not e.server.enabled
    then owners name es
    else listing name e.server.id e.tools ++ owners name es

held : String → Dict (List String) → List String
held name seen = get_or (lookup name seen) []
