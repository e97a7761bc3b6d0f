-- ===== src/Registry/Naming.antt =====
-- `_build_tool_definitions`, and `sync_one` around it.
use mcp_gateway_python.Prelude.{
  ℕ, String, Dict, err, List, Option, ◌∷◌, elem, false, Bool, Result, if◌then◌else◌, ok, some, ◌==◌,
  true, [], lookup, not, insert, ◌&&◌, none, any, ◌||◌,
}
use mcp_gateway_python.Prelude.Text.{◌<>◌}
use mcp_gateway_python.Json.{Fields}
use mcp_gateway_python.Registry.Servers.{
  UpstreamServer, ToolDefinition, RegistryEntry, Strategy, prefix_always, prefix_on_conflict, bare,
  OnConflict, warn, error, suffix, NamingConfig, ServerRegistry, prefix_of,
}

-- What `list_tools` gives for a tool.
pub record RawTool : Type 0 where
  pub name : String
  pub description : Option String
  pub input_schema : Fields

-- `ToolNameConflict`: the name, its owner, and the server that wants it.
pub record ToolNameConflict : Type 0 where
  pub tool : String
  pub owner : String
  pub server_id : String

abbrev pub claim_all : String → List ToolDefinition → Dict String → Dict String
claim_all sid [] existing = existing
claim_all sid (td ∷ tds) existing =
    claim_all sid tds
      (if td.qualified_name == "" then existing else insert td.qualified_name sid existing)

-- The names that the other servers claim, with their owners.
unfoldable pub claims_of_others : String → Dict RegistryEntry → Dict String → Dict String
claims_of_others sid [] existing = existing
claims_of_others sid ((other, e) ∷ es) existing =
    claims_of_others sid es (if other == sid then existing else claim_all other e.tools existing)

-- Whether another server has a tool of this bare name.
unfoldable pub collides : String → String → Dict RegistryEntry → Bool
collides sid name [] = false
collides sid name ((other, e) ∷ es) =
    (not (other == sid) && any (λ t. t.name == name) e.tools) || collides sid name es

unfoldable pub qualified_by : Strategy → UpstreamServer → String → Dict RegistryEntry → String
unfolding collides
qualified_by prefix_always s name es = prefix_of s <> "." <> name
qualified_by bare s name es = name
qualified_by prefix_on_conflict s name es =
    if collides s.id name es then prefix_of s <> "." <> name else name

-- The name that a tool gets, none where it is skipped, or the conflict.
unfoldable pub settle :
    OnConflict → UpstreamServer → Dict String → String → Result ToolNameConflict (Option String)
settle policy s existing qualified = elim (lookup qualified existing) [
  | none ↦ ok (some qualified)
  | some owner ↦ elim policy [
    | error ↦ err (record { tool = qualified; owner = owner; server_id = s.id })
    | suffix ↦ ok (some (qualified <> "_" <> s.id))
    | warn ↦ ok none
  ]
]

unfoldable pub define_tool : UpstreamServer → RawTool → String → ToolDefinition
define_tool s raw qualified = record {
  name = raw.name;
  description = raw.description;
  input_schema = raw.input_schema;
  server_id = s.id;
  qualified_name = qualified;
  mutable_tool = elem raw.name s.mutable_tools;
  tags = s.tags;
}

-- The loop over the raw tools.
unfoldable pub build :
    NamingConfig
    → UpstreamServer
    → Dict RegistryEntry
    → List RawTool
    → Dict String
    → Result ToolNameConflict (List ToolDefinition)
unfolding qualified_by settle define_tool
build naming s es [] existing = ok []
build naming s es (raw ∷ raws) existing =
    elim (settle naming.on_conflict s existing (qualified_by naming.strategy s raw.name es)) [
      | err e ↦ err e
      | ok none ↦ build naming s es raws existing
      | ok (some qualified) ↦ elim (build naming s es raws (insert qualified s.id existing)) [
        | err e ↦ err e
        | ok tools ↦ ok (define_tool s raw qualified ∷ tools)
      ]
    ]

-- `_build_tool_definitions`
unfoldable pub build_tool_definitions :
    ServerRegistry → UpstreamServer → List RawTool → Result ToolNameConflict (List ToolDefinition)
unfolding build claims_of_others
build_tool_definitions r s raws =
    build r.naming s r.entries raws (claims_of_others s.id r.entries [])

-- What the upstream answered: its tools, or an exception's text.
pub data Listing : Type 0 where
  listed : List RawTool → Listing
  failed : String → Listing

conflict_text : ToolNameConflict → String
conflict_text c =
    "tool '" <> c.tool <> "' already registered by server '" <> c.owner
    <> "'; cannot register from '" <> c.server_id <> "'"

unfoldable pub failed_entry : String → RegistryEntry → RegistryEntry
failed_entry text e = record e { healthy = false; last_error = some text }

unfoldable pub synced : ServerRegistry → RegistryEntry → Listing → ℕ → RegistryEntry
unfolding build_tool_definitions failed_entry conflict_text
synced r e (failed text) now = failed_entry text e
synced r e (listed raws) now = elim (build_tool_definitions r e.server raws) [
  | err c ↦ failed_entry (conflict_text c) e
  | ok tools ↦ record e { tools = tools; healthy = true; last_error = none; last_synced = some now }
]

-- `sync_one`, with the upstream's answer and the time.
unfoldable pub sync_one : String → Listing → ℕ → ServerRegistry → Bool × ServerRegistry
unfolding synced
sync_one sid listing now r = elim (lookup sid r.entries) [
  | none ↦ (false, r)
  | some e ↦
      if not e.server.enabled
      then (false, r)
      else (let e' = synced r e listing now in
          (e'.healthy, record r { entries = insert sid e' r.entries }))
]

-- The end of a `sync_one` that other operations have overlapped, when the upstream's answer arrives:
-- the entry that it began with gets the tools. If that entry has been removed or replaced in the
-- meantime, the registry stays as it is.
unfoldable pub enter_listing : String → Listing → ℕ → ServerRegistry → ServerRegistry
unfolding synced
enter_listing sid listing now r = elim (lookup sid r.entries) [
  | none ↦ r
  | some e ↦ record r { entries = insert sid (synced r e listing now) r.entries }
]
