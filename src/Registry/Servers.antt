-- ===== src/Registry/Servers.antt =====
-- `ServerRegistry`: the entries and the operations that add, remove and change them. The client
-- object of an entry is not modelled here: what its `list_tools` returns is an argument of `sync`.
-- Entries are mutable objects; the registry is the only owner of an entry's state, so that a change
-- of an entry is a change of the registry at its server id.
use mcp_gateway_python.Prelude.{
  ℕ, String, Dict, insert, List, Option, Bool, none, [], select, false, some, lookup, contains,
  values, true, erase, if◌then◌else◌, ◌==◌,
}
use mcp_gateway_python.Json.{Fields}
use mcp_gateway_python.Credentials.Settings.{ServerAuthConfig}

-- `UpstreamServer`, but for its timeout, which nothing reads.
pub record UpstreamServer : Type 0 where
  pub id : String
  pub name : String
  pub base_url : String
  pub transport : String
  pub auth_header : Option String
  pub auth_token : Option String
  pub server_auth : Option ServerAuthConfig
  pub tags : List String
  pub enabled : Bool
  pub tool_prefix : Option String
  pub mutable_tools : List String

-- `ToolDefinition`
pub record ToolDefinition : Type 0 where
  pub name : String
  pub description : Option String
  pub input_schema : Fields
  pub server_id : String
  pub qualified_name : String
  pub mutable_tool : Bool
  pub tags : List String

-- `RegistryEntry`
pub record RegistryEntry : Type 0 where
  pub server : UpstreamServer
  pub tools : List ToolDefinition
  pub last_synced : Option ℕ
  pub last_error : Option String
  pub healthy : Bool

pub data Strategy : Type 0 where
  prefix_always prefix_on_conflict bare : Strategy

pub data OnConflict : Type 0 where
  warn error suffix : OnConflict

pub record NamingConfig : Type 0 where
  pub strategy : Strategy
  pub on_conflict : OnConflict

pub record ServerRegistry : Type 0 where
  pub entries : Dict RegistryEntry
  pub naming : NamingConfig

-- `server.tool_prefix or server.id`
unfoldable pub prefix_of : UpstreamServer → String
prefix_of s = elim s.tool_prefix [ none ↦ s.id | some p ↦ if p == "" then s.id else p ]

-- `register`, up to the sync that may follow: an entry of the same id is replaced.
unfoldable pub register : UpstreamServer → ServerRegistry → ServerRegistry
register server r = record r {
  entries =
      insert server.id
        (record {
          server = server;
          tools = [];
          last_synced = none;
          last_error = none;
          healthy = false;
        })
        r.entries;
}

-- `deregister`
unfoldable pub deregister : String → ServerRegistry → Bool × ServerRegistry
deregister sid r = (contains sid r.entries, record r { entries = erase sid r.entries })

-- `set_enabled`
unfoldable pub set_enabled : String → Bool → ServerRegistry → Bool × ServerRegistry
set_enabled sid on r = elim (lookup sid r.entries) [
  | none ↦ (false, r)
  | some e ↦ (
    true,
    record r {
      entries = insert sid (record e { server = record e.server { enabled = on } }) r.entries;
    },
  )
]

-- A reload's update of a server in place, where it has an entry: the entry keeps its tools.
unfoldable pub update_in_place : UpstreamServer → ServerRegistry → ServerRegistry
update_in_place s r = elim (lookup s.id r.entries) [
  | none ↦ r
  | some e ↦ record r { entries = insert s.id (record e { server = s }) r.entries }
]

-- `get`
unfoldable pub get : String → ServerRegistry → Option RegistryEntry
get sid r = lookup sid r.entries

-- `enabled_entries`
unfoldable pub enabled_entries : ServerRegistry → List RegistryEntry
enabled_entries r = select (λ e. e.server.enabled) (values r.entries)
