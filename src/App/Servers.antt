-- ===== src/App/Servers.antt =====
-- Which server stands at an id, after each operation.
use mcp_gateway_python.Client.Calls.{list_tools}
use mcp_gateway_python.Credentials.Expand.{Environ}
use mcp_gateway_python.Registry.Servers
use mcp_gateway_python.Prelude.{
  String, Option, lookup, lookup-insert, map_option, ◌≡◌, arith, eq_iff, ℕ, Option-cases, inl, inr,
  Dict, if◌then◌else◌, ◌==◌, none, some, lookup-erase, [], false,
}
use mcp_gateway_python.Registry.Servers.{UpstreamServer, ServerRegistry, RegistryEntry}
use mcp_gateway_python.Registry.Naming.{Listing, sync_one, synced, failed_entry}
use mcp_gateway_python.App.State.{
  App, register_server, add_client, deregister_server, sync_server, put_client, Visit, listing_of,
  set_registry,
}

-- The server of the entry at an id.
abbrev pub served_in : String → Dict RegistryEntry → Option UpstreamServer
served_in sid d = map_option (λ e. e.server) (lookup sid d)

abbrev pub served : String → App → Option UpstreamServer
served sid a = served_in sid a.gateway.registry.entries

sync_one-served :
    (sid j : String) (l : Listing) (now : ℕ) (r : ServerRegistry)
    → served_in j (sync_one sid l now r).1.entries ≡ served_in j r.entries
unfolding sync_one synced failed_entry
sync_one-served sid j l now r = elim (Option-cases (lookup sid r.entries)) [
  | inl new ↦ ground arith
  | inr (e, here) ↦ ground (arith, eq_iff sid j, lookup-insert sid j (synced r e l now) r.entries)
]

pub deregister_server-served :
    (sid j : String) (a : App)
    → served j (deregister_server sid a).1 ≡ (if sid == j then none else served j a)
unfolding deregister_server Servers.deregister
deregister_server-served sid j a = ground (arith, lookup-erase sid j a.gateway.registry.entries)

module _ (environ : Environ) where
  pub sync_server-served :
      (v : Visit) (sid j : String) (a : App) → served j (sync_server environ v sid a).1 ≡ served j a
  unfolding sync_server put_client
  sync_server-served v sid j a = elim (Option-cases (lookup sid a.gateway.registry.entries)) [
    | inl new ↦ ground arith
    | inr (e, here) ↦ elim (Option-cases (lookup sid a.clients)) [
      | inl gone ↦ ground arith
      | inr (c, held) ↦ ground (
        arith,
        sync_one-served sid j (listing_of (list_tools environ v.run c).0) v.synced_at
            a.gateway.registry,
      )
    ]
  ]

  add_client-served :
      (s : UpstreamServer) (j : String) (a : App) → served j (add_client environ s a) ≡ served j a
  unfolding add_client
  add_client-served s j a = ground arith

  pub register_server-served :
      (v : Visit) (s : UpstreamServer) (j : String) (a : App)
      → served j (register_server environ v s a) ≡ (if s.id == j then some s else served j a)
  unfolding register_server Servers.register
  register_server-served v s j a =
      let a' = set_registry (Servers.register s a.gateway.registry) (add_client environ s a) in
      let e : RegistryEntry = record {
        server = s;
        tools = [];
        last_synced = none;
        last_error = none;
        healthy = false;
      } in
      ground (
        arith,
        sync_server-served v s.id j a',
        add_client-served s j a,
        lookup-insert s.id j e a.gateway.registry.entries,
      )
