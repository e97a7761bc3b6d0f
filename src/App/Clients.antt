-- ===== src/App/Clients.antt =====
-- The clients over a reload.
use mcp_gateway_python.App.Updates.{elem-select, find_server-absent}
use mcp_gateway_python.App.Config.{ids_of, GatewayConfig}
use mcp_gateway_python.Registry.Servers
use mcp_gateway_python.Breaker.Pool
use mcp_gateway_python.Prelude.{
  String, false, Option, none, some, List, [], ◌∷◌, lookup, lookup-insert, lookup-erase, elem, ◌==◌,
  ◌≡◌, refl, arith, eq_iff, Option-cases, inl, inr, IsDistinct, ap, Bool-cases, ◌∙◌, ok, not,
}
use mcp_gateway_python.Credentials.Expand.{Environ}
use mcp_gateway_python.Registry.Servers.{UpstreamServer, update_in_place}
use mcp_gateway_python.Client.Session.{McpClient, new_client}
use mcp_gateway_python.Client.Calls.{list_tools}
use mcp_gateway_python.App.State.{
  App, Visit, sync_server, put_client, add_client, register_server, deregister_server, set_registry,
}
use mcp_gateway_python.App.Reload.{
  deregister_all, apply_server, apply_all, do_reload, update_server, swap_policies, find_server,
  removed_ids, must_reopen,
}

module _ (environ : Environ) (j : String) where
  -- The client of the id.
  abbrev client : App → Option McpClient
  client a = lookup j a.clients

  sync_server-client :
      (v : Visit) (sid : String) (a : App)
      → (sid == j) ≡ false
      → client (sync_server environ v sid a).1 ≡ client a
  unfolding sync_server put_client
  sync_server-client v sid a other = elim (Option-cases (lookup sid a.clients)) [
    | inl gone ↦ ground arith
    | inr (c, held) ↦ ground (arith, lookup-insert sid j (list_tools environ v.run c).1 a.clients)
  ]

  add_client-client :
      (s : UpstreamServer) (a : App)
      → (s.id == j) ≡ false
      → client (add_client environ s a) ≡ client a
  unfolding add_client
  add_client-client s a other =
      let (b, pool) = Pool.get s.id a.breakers in
      ground (
        arith,
        lookup-insert s.id j (new_client environ s (some b)) a.clients,
        lookup-insert s.id j (new_client environ s none) a.clients,
      )

  register_server-client :
      (v : Visit) (s : UpstreamServer) (a : App)
      → (s.id == j) ≡ false
      → client (register_server environ v s a) ≡ client a
  unfolding register_server
  register_server-client v s a other =
      let a' = set_registry (Servers.register s a.gateway.registry) (add_client environ s a) in
      ground (arith, sync_server-client v s.id a' other, add_client-client s a other)

  deregister_all-client :
      (sids : List String) (a : App)
      → elem j sids ≡ false
      → client (deregister_all sids a) ≡ client a
  unfolding deregister_all deregister_server
  deregister_all-client [] a h = refl
  deregister_all-client (sid ∷ sids) a h = ground (
    arith,
    deregister_all-client sids (deregister_server sid a).1,
    lookup-erase sid j a.clients,
    eq_iff sid j,
    eq_iff j sid,
  )

  module _ (visits : String → Visit) (old : List UpstreamServer) where
    apply_server-other :
        (s : UpstreamServer) (a : App)
        → (s.id == j) ≡ false
        → client (apply_server environ visits old s a) ≡ client a
    unfolding apply_server update_server update_in_place deregister_server
    apply_server-other s a other = elim (Option-cases (find_server s.id old)) [
      | inl new ↦
          let at : apply_server environ visits old s a ≡ register_server environ (visits s.id) s a =
            ground arith in
          ap client at ∙ register_server-client (visits s.id) s a other
      | inr (o, known) ↦ elim (Bool-cases (must_reopen o s)) [
        | inl moved ↦
            let gone = (deregister_server s.id a).1 in
            let at : apply_server environ visits old s a
                ≡ register_server environ (visits s.id) s gone =
              ground arith in
            let less : client gone ≡ client a = ground (arith, lookup-erase s.id j a.clients) in
            ap client at ∙ register_server-client (visits s.id) s gone other ∙ less
        | inr same ↦ ground arith
      ]
    ]

    apply_server-kept :
        (s o : UpstreamServer) (a : App)
        → find_server s.id old ≡ some o
        → must_reopen o s ≡ false
        → client (apply_server environ visits old s a) ≡ client a
    unfolding apply_server update_server update_in_place
    apply_server-kept s o a known same = ground arith

    apply_all-other :
        (ss : List UpstreamServer) (a : App)
        → elem j (ids_of ss) ≡ false
        → client (apply_all environ visits old ss a) ≡ client a
    unfolding apply_all
    apply_all-other [] a h = refl
    apply_all-other (s ∷ ss) a h = ground (
      arith,
      apply_all-other ss (apply_server environ visits old s a),
      apply_server-other s a,
      eq_iff s.id j,
      eq_iff j s.id,
    )

    apply_all-kept :
        (ss : List UpstreamServer) (s o : UpstreamServer) (a : App)
        → IsDistinct (ids_of ss)
        → find_server j ss ≡ some s
        → find_server j old ≡ some o
        → must_reopen o s ≡ false
        → client (apply_all environ visits old ss a) ≡ client a
    unfolding apply_all
    apply_all-kept [] s o a d new known same = refl
    apply_all-kept (t ∷ ss) s o a d new known same = elim (Bool-cases (t.id == j)) [
      | inl here ↦
          let at : t ≡ s = ground arith in
          let id : t.id ≡ j = (eq_iff t.id j).0 here in
          let old_t : find_server t.id old ≡ some o = rw id known in
          let same_t : must_reopen o t ≡ false = ap (must_reopen o) at ∙ same in
          let none_left : elem j (ids_of ss) ≡ false = rw⁻¹ id d.0 in
          apply_all-other ss (apply_server environ visits old t a) none_left
          ∙ apply_server-kept t o a old_t same_t
      | inr other ↦
          apply_all-kept ss s o (apply_server environ visits old t a) d.1 (ground arith) known same
          ∙ apply_server-other t a other
    ]

  -- A server that the old and the new configuration have, with the same URL and transport, where no
  -- id occurs twice in the new one, keeps its client over a reload: its session, and also the
  -- credentials, the headers and the server that the client was built with, whatever else the new
  -- configuration changes.
  pub do_reload-client :
      (visits : String → Visit) (cfg : GatewayConfig) (s o : UpstreamServer) (a : App)
      → IsDistinct (ids_of cfg.upstreams)
      → find_server j cfg.upstreams ≡ some s
      → find_server j a.config.upstreams ≡ some o
      → must_reopen o s ≡ false
      → lookup j (do_reload environ visits (ok cfg) a).1.clients ≡ lookup j a.clients
  unfolding do_reload swap_policies removed_ids
  do_reload-client visits cfg s o a d new known same =
      let gone = deregister_all (removed_ids a.config cfg) a in
      let stays =
        elem-select (λ sid. not (elem sid (ids_of cfg.upstreams))) j (ids_of a.config.upstreams) in
      let less : client gone ≡ client a = ground (
        arith,
        deregister_all-client (removed_ids a.config cfg) a,
        stays,
        find_server-absent j cfg.upstreams,
      ) in
      apply_all-kept visits a.config.upstreams cfg.upstreams s o gone d new known same ∙ less
