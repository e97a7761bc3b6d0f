-- ===== src/Api/Servers.antt =====
-- The routes of the registry, behind the API key.
use mcp_gateway_python.Registry.Servers
use mcp_gateway_python.Prelude.{
  ℕ, String, Bool, Option, none, some, length, if◌then◌else◌, ◌≡◌, ◌↔◌, arith,
}
use mcp_gateway_python.Prelude.Text.{◌<>◌}
use mcp_gateway_python.Credentials.Expand.{Environ}
use mcp_gateway_python.Registry.Servers.{UpstreamServer, RegistryEntry}
use mcp_gateway_python.App.State.{
  App, Visit, register_server, deregister_server, sync_server, set_registry,
}
use mcp_gateway_python.App.Servers.{served, sync_server-served}
use mcp_gateway_python.Api.Http.{
  Settings, Request, Response, done, http_exception, raised, require_api_key,
}

-- What the routes tell of an entry.
pub record Report : Type 0 where
  pub server_id : String
  pub healthy : Bool
  pub tool_count : ℕ
  pub last_error : Option String

unfoldable pub report_of : RegistryEntry → Report
report_of e = record {
  server_id = e.server.id;
  healthy = e.healthy;
  tool_count = length e.tools;
  last_error = e.last_error;
}

not_found : {A : Type 0} → String → Response A
not_found sid = http_exception 404 ("server '" <> sid <> "' not found")

-- A route behind the API key.
unfoldable pub with_key :
    {A : Type 0} → Settings → Request → (App → Response A × App) → App → Response A × App
unfolding require_api_key
with_key s r route a = elim (require_api_key s r) [
  | done _ ↦ route a
  | http_exception code detail ↦ (http_exception code detail, a)
  | raised text ↦ (raised text, a)
]

-- The route `deregister_server`
unfoldable pub deregister_route : String → App → Response String × App
unfolding not_found deregister_server
deregister_route sid a =
    let (found, a') = deregister_server sid a in (if found then done sid else not_found sid, a')

-- The route `set_enabled`
unfoldable pub set_enabled_route : String → Bool → App → Response Bool × App
unfolding not_found
set_enabled_route sid on a =
    let (found, r) = Servers.set_enabled sid on a.gateway.registry in
    (if found then done on else not_found sid, set_registry r a)

module _ (environ : Environ) where
  -- The route `sync_server`; what it says of the server's health is what the sync gave.
  unfoldable pub sync_route : Visit → String → App → Response Report × App
  unfolding not_found report_of sync_server
  sync_route v sid a =
      let (healthy, a') = sync_server environ v sid a in
      (
        elim (Servers.get sid a'.gateway.registry) [
          | none ↦ not_found sid
          | some e ↦ done (record (report_of e) { server_id = sid; healthy = healthy })
        ],
        a',
      )

  -- The route `register_server`
  unfoldable pub register_route : Visit → UpstreamServer → App → Response Report × App
  unfolding report_of register_server
  register_route v s a =
      let a' = register_server environ v s a in
      (
        elim (Servers.get s.id a'.gateway.registry) [
          | none ↦ raised "no entry"
          | some e ↦ done (report_of e)
        ],
        a',
      )

-- The response says that there is no such server.
abbrev pub IsMissing : {A : Type 0} → String → Response A → Type 0
IsMissing sid r = r ≡ http_exception 404 ("server '" <> sid <> "' not found")

module _ (environ : Environ) where
  -- The routes that remove, switch and sync a server answer with 404 exactly when no server of that
  -- id is registered.
  pub routes-IsMissing :
      (v : Visit) (sid : String) (on : Bool) (a : App)
      → (IsMissing sid (deregister_route sid a).0 ↔ (served sid a ≡ none))
        × (IsMissing sid (set_enabled_route sid on a).0 ↔ (served sid a ≡ none))
        × (IsMissing sid (sync_route environ v sid a).0 ↔ (served sid a ≡ none))
  unfolding deregister_route set_enabled_route Servers.deregister Servers.set_enabled Servers.get
      sync_route
  routes-IsMissing v sid on a =
      let same = sync_server-served environ v sid sid a in
      (ground arith, ground arith, ground (arith, same))
