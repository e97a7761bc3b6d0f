-- ===== src/App/Updates.antt =====
-- Which servers are registered after the start, and after a reload.
use mcp_gateway_python.Prelude.{
  String, Bool, false, not, ◌&&◌, Option, none, some, List, [], ◌∷◌, lookup, lookup-insert,
  if◌then◌else◌, map_option, ◌==◌, ◌≡◌, refl, arith, eq_iff, Option-cases, Bool-cases, inl, inr,
  elem, select, IsDistinct, ok, ap,
}
use mcp_gateway_python.Credentials.Expand.{Environ}
use mcp_gateway_python.Registry.Servers.{UpstreamServer, update_in_place}
use mcp_gateway_python.Audit.Store.{AuditStore}
use mcp_gateway_python.App.Config.{GatewayConfig, ids_of}
use mcp_gateway_python.App.State.{
  App, Visit, register_server, deregister_server, register_all, start, build_components,
}
use mcp_gateway_python.App.Servers.{served, register_server-served, deregister_server-served}
use mcp_gateway_python.App.Reload.{
  find_server, removed_ids, must_reopen, deregister_all, update_server, apply_server, apply_all,
  do_reload, swap_policies,
}

pub find_server-absent :
    (j : String) (ss : List UpstreamServer) → elem j (ids_of ss) ≡ false → find_server j ss ≡ none
find_server-absent j [] h = refl
find_server-absent j (s ∷ ss) h =
    ground (arith, find_server-absent j ss, eq_iff s.id j, eq_iff j s.id)

-- What the new configuration's server does to what stands at its id: a server that is new, or has
-- another URL or transport, is registered; another takes the place of the old one, if that is there.
abbrev pub applied :
    List UpstreamServer → UpstreamServer → Option UpstreamServer → Option UpstreamServer
applied old s before = elim (find_server s.id old) [
  | none ↦ some s
  | some o ↦ if must_reopen o s then some s else map_option (λ x. s) before
]

module _ (environ : Environ) (visits : String → Visit) where
  register_all-served :
      (ss : List UpstreamServer) (j : String) (a : App)
      → IsDistinct (ids_of ss)
      → served j (register_all environ visits ss a)
        ≡ elim (find_server j ss) [ none ↦ served j a | some s ↦ some s ]
  unfolding register_all
  register_all-served [] j a d = refl
  register_all-served (s ∷ ss) j a d =
      let a' = register_server environ (visits s.id) s a in
      ground (
        arith,
        register_all-served ss j a' d.1,
        register_server-served environ (visits s.id) s j a,
        eq_iff s.id j,
        find_server-absent j ss,
      )

  -- After the start, each id of the configuration, in which none occurs twice, has its server, and
  -- no other id has one, whether or not the syncs went well.
  pub start-served :
      (audit : AuditStore) (cfg : GatewayConfig) (j : String)
      → IsDistinct (ids_of cfg.upstreams)
      → served j (start environ visits audit cfg) ≡ find_server j cfg.upstreams
  unfolding start build_components lookup
  start-served audit cfg j d =
      let all = register_all-served cfg.upstreams j (build_components audit cfg) d in
      ground (arith, all)

  update_server-served :
      (s : UpstreamServer) (j : String) (a : App)
      → served j (update_server s a)
        ≡ (if s.id == j then map_option (λ x. s) (served j a) else served j a)
  unfolding update_server update_in_place
  update_server-served s j a = elim (Option-cases (lookup s.id a.gateway.registry.entries)) [
    | inl new ↦ ground (arith, eq_iff s.id j)
    | inr (e, here) ↦ ground (
      arith,
      eq_iff s.id j,
      lookup-insert s.id j (record e { server = s }) a.gateway.registry.entries,
    )
  ]

  apply_server-served :
      (old : List UpstreamServer) (s : UpstreamServer) (j : String) (a : App)
      → served j (apply_server environ visits old s a)
        ≡ (if s.id == j then applied old s (served j a) else served j a)
  unfolding apply_server
  apply_server-served old s j a =
      let gone = (deregister_server s.id a).1 in
      ground (
        arith,
        register_server-served environ (visits s.id) s j a,
        register_server-served environ (visits s.id) s j gone,
        deregister_server-served s.id j a,
        update_server-served s j a,
      )

  apply_all-served :
      (old ss : List UpstreamServer) (j : String) (a : App)
      → IsDistinct (ids_of ss)
      → served j (apply_all environ visits old ss a)
        ≡ elim (find_server j ss) [ none ↦ served j a | some s ↦ applied old s (served j a) ]
  unfolding apply_all
  apply_all-served old [] j a d = refl
  apply_all-served old (s ∷ ss) j a d =
      let a' = apply_server environ visits old s a in
      ground (
        arith,
        apply_all-served old ss j a' d.1,
        apply_server-served old s j a,
        eq_iff s.id j,
        find_server-absent j ss,
      )

deregister_all-served :
    (sids : List String) (j : String) (a : App)
    → served j (deregister_all sids a) ≡ (if elem j sids then none else served j a)
unfolding deregister_all
deregister_all-served [] j a = refl
deregister_all-served (sid ∷ sids) j a = ground (
  arith,
  deregister_all-served sids j (deregister_server sid a).1,
  deregister_server-served sid j a,
  eq_iff sid j,
  eq_iff j sid,
)

pub elem-select :
    (p : String → Bool) (j : String) (xs : List String) → elem j (select p xs) ≡ (elem j xs && p j)
elem-select p j [] = refl
elem-select p j (x ∷ xs) = elim (Bool-cases (j == x)) [
  | inl same ↦
      let at : p j ≡ p x = ap p ((eq_iff j x).0 same) in ground (arith, elem-select p j xs, at)
  | inr other ↦ ground (arith, elem-select p j xs)
]

find_server-present :
    (j : String) (ss : List UpstreamServer) → find_server j ss ≡ none → elem j (ids_of ss) ≡ false
find_server-present j [] h = refl
find_server-present j (s ∷ ss) h =
    ground (arith, find_server-present j ss, eq_iff s.id j, eq_iff j s.id)

-- After a reload of a configuration in which no id occurs twice, an id that it has is `applied`
-- with its server to what stood there before; an id that only the old configuration has is not
-- registered; and any other id, one that was registered at run time, is as before.
pub do_reload-served :
    (environ : Environ) (visits : String → Visit) (cfg : GatewayConfig) (j : String) (a : App)
    → IsDistinct (ids_of cfg.upstreams)
    → served j (do_reload environ visits (ok cfg) a).1 ≡ elim (find_server j cfg.upstreams) [
      | none ↦ if elem j (ids_of a.config.upstreams) then none else served j a
      | some s ↦ applied a.config.upstreams s (served j a)
    ]
unfolding do_reload removed_ids swap_policies
do_reload-served environ visits cfg j a d =
    let gone = deregister_all (removed_ids a.config cfg) a in
    let all = apply_all-served environ visits a.config.upstreams cfg.upstreams j gone d in
    let less = deregister_all-served (removed_ids a.config cfg) j a in
    let away =
      elem-select (λ sid. not (elem sid (ids_of cfg.upstreams))) j (ids_of a.config.upstreams) in
    ground (
      arith,
      all,
      less,
      away,
      find_server-absent j cfg.upstreams,
      find_server-present j cfg.upstreams,
    )
