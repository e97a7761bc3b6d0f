-- ===== src/App/Policies.antt =====
-- What a reload replaces, and what it leaves.
use mcp_gateway_python.App.Config.{GatewayConfig}
use mcp_gateway_python.Prelude.{
  String, erase, Bool, Option, List, [], ◌∷◌, ◌≡◌, refl, arith, ℕ, ◌∙◌, ok, ap, Option-cases, inl,
  inr, Bool-cases,
}
use mcp_gateway_python.Breaker.Pool
use mcp_gateway_python.Registry.Servers
use mcp_gateway_python.Cache.Store.{delete, empty}
use mcp_gateway_python.Credentials.Expand.{Environ}
use mcp_gateway_python.Cache.Tools
use mcp_gateway_python.Registry.Servers.{UpstreamServer, NamingConfig, update_in_place}
use mcp_gateway_python.Registry.Naming.{sync_one}
use mcp_gateway_python.Audit.Store.{AuditStore}
use mcp_gateway_python.Orchestrator.Gateway.{Sent, Counted}
use mcp_gateway_python.App.State.{
  App, Visit, sync_server, put_client, add_client, register_server, deregister_server, set_registry,
  build_components,
}
use mcp_gateway_python.App.Reload.{
  deregister_all, update_server, apply_server, apply_all, find_server, must_reopen, do_reload,
  swap_policies, removed_ids,
}

-- What only a restart changes: the records of what happened, the naming, and the settings of the
-- circuit breakers.
pub record Lasting : Type 0 where
  pub audit : Option AuditStore
  pub sent : List Sent
  pub counted : List Counted
  pub naming : NamingConfig
  pub breaking : Bool
  pub failure_threshold : ℕ
  pub recovery_timeout : ℕ
  pub probe_successes : ℕ

abbrev pub lasting : App → Lasting
lasting a = record {
  audit = a.gateway.audit;
  sent = a.gateway.sent;
  counted = a.gateway.counted;
  naming = a.gateway.registry.naming;
  breaking = a.breakers.enabled;
  failure_threshold = a.breakers.failure_threshold;
  recovery_timeout = a.breakers.recovery_timeout;
  probe_successes = a.breakers.probe_successes;
}

deregister_all-lasting :
    (sids : List String) (a : App) → lasting (deregister_all sids a) ≡ lasting a
unfolding deregister_all deregister_server Servers.deregister
deregister_all-lasting [] a = refl
deregister_all-lasting (sid ∷ sids) a = deregister_all-lasting sids (deregister_server sid a).1

update_server-lasting : (s : UpstreamServer) (a : App) → lasting (update_server s a) ≡ lasting a
unfolding update_server update_in_place
update_server-lasting s a = ground arith

module _ (environ : Environ) where
  add_client-lasting : (s : UpstreamServer) (a : App) → lasting (add_client environ s a) ≡ lasting a
  unfolding add_client Pool.get
  add_client-lasting s a = ground arith

  sync_server-lasting :
      (v : Visit) (sid : String) (a : App) → lasting (sync_server environ v sid a).1 ≡ lasting a
  unfolding sync_server put_client sync_one
  sync_server-lasting v sid a = ground arith

  register_server-lasting :
      (v : Visit) (s : UpstreamServer) (a : App)
      → lasting (register_server environ v s a) ≡ lasting a
  unfolding register_server Servers.register
  register_server-lasting v s a =
      let a' = set_registry (Servers.register s a.gateway.registry) (add_client environ s a) in
      ground (arith, sync_server-lasting v s.id a', add_client-lasting s a)

  module _ (visits : String → Visit) where
    apply_server-lasting :
        (old : List UpstreamServer) (s : UpstreamServer) (a : App)
        → lasting (apply_server environ visits old s a) ≡ lasting a
    unfolding apply_server deregister_server Servers.deregister
    apply_server-lasting old s a = elim (Option-cases (find_server s.id old)) [
      | inl new ↦
          let at : apply_server environ visits old s a ≡ register_server environ (visits s.id) s a =
            ground arith in
          ap lasting at ∙ register_server-lasting (visits s.id) s a
      | inr (o, known) ↦ elim (Bool-cases (must_reopen o s)) [
        | inl moved ↦
            let gone = (deregister_server s.id a).1 in
            let at : apply_server environ visits old s a
                ≡ register_server environ (visits s.id) s gone =
              ground arith in
            ap lasting at ∙ register_server-lasting (visits s.id) s gone
        | inr same ↦
            let at : apply_server environ visits old s a ≡ update_server s a = ground arith in
            ap lasting at ∙ update_server-lasting s a
      ]
    ]

    apply_all-lasting :
        (old ss : List UpstreamServer) (a : App)
        → lasting (apply_all environ visits old ss a) ≡ lasting a
    unfolding apply_all
    apply_all-lasting old [] a = refl
    apply_all-lasting old (s ∷ ss) a =
        apply_all-lasting old ss (apply_server environ visits old s a)
        ∙ apply_server-lasting old s a

    -- A reload makes every policy of the orchestrator, its cache and its dispatcher, and the
    -- authorizer, those that the application would start with on the new configuration; the records
    -- of the past stay, and so do the naming of tools and the settings of the circuit breakers.
    pub do_reload-policies :
        (cfg : GatewayConfig) (audit : AuditStore) (a : App)
        → let b = (do_reload environ visits (ok cfg) a).1 in
          let fresh = build_components audit cfg in
          (b.gateway ≡ record fresh.gateway {
            registry = b.gateway.registry;
            audit = a.gateway.audit;
            sent = a.gateway.sent;
            counted = a.gateway.counted;
          })
          × (b.authorizer ≡ fresh.authorizer)
          × (b.config ≡ cfg)
          × (lasting b ≡ lasting a)
    unfolding do_reload build_components swap_policies Tools.invalidate_manifest Tools.new delete
        empty erase
    do_reload-policies cfg audit a =
        let gone = deregister_all (removed_ids a.config cfg) a in
        let kept =
          apply_all-lasting a.config.upstreams cfg.upstreams gone
          ∙ deregister_all-lasting (removed_ids a.config cfg) a in
        let audit_kept = ap (λ l. l.audit) kept in
        let sent_kept = ap (λ l. l.sent) kept in
        let counted_kept = ap (λ l. l.counted) kept in (cc, refl, refl, kept)
