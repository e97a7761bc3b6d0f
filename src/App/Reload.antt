-- ===== src/App/Reload.antt =====
-- app/admin/reload.py: `_do_reload`. The ids that are removed are taken in the order of the old
-- configuration; the order does not matter to the erasures that follow.
use mcp_gateway_python.Cache.Tools
use mcp_gateway_python.Prelude.{
  String, Bool, Option, none, some, List, [], ◌∷◌, if◌then◌else◌, Result, ok, err, not, elem,
  select, ◌==◌, ◌||◌,
}
use mcp_gateway_python.Credentials.Expand.{Environ}
use mcp_gateway_python.Registry.Servers.{UpstreamServer, update_in_place}
use mcp_gateway_python.Auth.Authorizer.{new_authorizer}
use mcp_gateway_python.RateLimit.Limiter.{new_limiter}
use mcp_gateway_python.App.Config.{GatewayConfig, ids_of}
use mcp_gateway_python.App.State.{
  App, Visit, limiter_config, validator_of, dispatcher_of, register_server, deregister_server,
  set_registry,
}

-- `next(s for s in upstreams if s.id == sid)`, where there is one
abbrev pub find_server : String → List UpstreamServer → Option UpstreamServer
find_server sid [] = none
find_server sid (s ∷ ss) = if s.id == sid then some s else find_server sid ss

-- `old_ids - new_ids`
unfoldable pub removed_ids : GatewayConfig → GatewayConfig → List String
removed_ids old new = select (λ sid. not (elem sid (ids_of new.upstreams))) (ids_of old.upstreams)

-- `new_ids - old_ids`
unfoldable pub added_ids : GatewayConfig → GatewayConfig → List String
added_ids old new = select (λ sid. not (elem sid (ids_of old.upstreams))) (ids_of new.upstreams)

-- `old_ids & new_ids`
unfoldable pub kept_ids : GatewayConfig → GatewayConfig → List String
kept_ids old new = select (λ sid. elem sid (ids_of new.upstreams)) (ids_of old.upstreams)

-- Another URL or transport asks for another session.
unfoldable pub must_reopen : UpstreamServer → UpstreamServer → Bool
must_reopen old new = not (old.base_url == new.base_url) || not (old.transport == new.transport)

unfoldable pub deregister_all : List String → App → App
unfolding deregister_server
deregister_all [] a = a
deregister_all (sid ∷ sids) a = deregister_all sids (deregister_server sid a).1

-- The update of an entry in place.
unfoldable pub update_server : UpstreamServer → App → App
unfolding update_in_place
update_server s a = set_registry (update_in_place s a.gateway.registry) a

-- What follows the servers: the policies of the orchestrator, its cache and its dispatcher.
unfoldable pub swap_policies : GatewayConfig → App → App
unfolding limiter_config validator_of dispatcher_of
swap_policies cfg a = record a {
  config = cfg;
  authorizer = new_authorizer cfg.auth;
  gateway = record a.gateway {
    auth = cfg.auth;
    redaction = cfg.redaction;
    safety = cfg.guardrails;
    schema_validator = some (validator_of cfg.schema_validation);
    rate_limiter = some (new_limiter (limiter_config cfg.rate_limiting));
    cache = some (Tools.invalidate_manifest (Tools.new cfg.cache));
    webhook_dispatcher = some (dispatcher_of cfg.webhooks);
  };
}

module _ (environ : Environ) (visits : String → Visit) where
  -- The body of the loop over the new servers.
  unfoldable pub apply_server : List UpstreamServer → UpstreamServer → App → App
  unfolding must_reopen update_server register_server deregister_server
  apply_server old s a = elim (find_server s.id old) [
    | none ↦ register_server environ (visits s.id) s a
    | some o ↦
        if must_reopen o s
        then register_server environ (visits s.id) s (deregister_server s.id a).1
        else update_server s a
  ]

  unfoldable pub apply_all : List UpstreamServer → List UpstreamServer → App → App
  unfolding apply_server
  apply_all old [] a = a
  apply_all old (s ∷ ss) a = apply_all old ss (apply_server old s a)

  -- `_do_reload`, with what loading the configuration gives; if it raises, nothing has changed.
  unfoldable pub do_reload :
      Result String GatewayConfig
      → App
      → Result String (List String × List String × List String) × App
  unfolding swap_policies apply_all deregister_all added_ids removed_ids kept_ids
  do_reload (err text) a = (err text, a)
  do_reload (ok cfg) a = (
    ok (added_ids a.config cfg, removed_ids a.config cfg, kept_ids a.config cfg),
    swap_policies cfg
        (apply_all a.config.upstreams cfg.upstreams (deregister_all (removed_ids a.config cfg) a)),
  )
