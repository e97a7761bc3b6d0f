-- ===== src/Registry/Gauges.antt =====
-- The gauges REGISTERED_SERVERS and REGISTERED_TOOLS of observability/metrics.py, as the operations of
-- the registry set them, and `close`.
pub mod Exact
mod Tests
use mcp_gateway_python.Registry.Naming.{sync_one, Listing, synced, enter_listing}
use mcp_gateway_python.Registry.Invariant.{
  Op, register_op, deregister_op, set_enabled_op, update_op, sync_op, step, answer_op,
  sync_one-enter_listing,
}
use mcp_gateway_python.Registry.Servers.{
  ServerRegistry, RegistryEntry, register, deregister, set_enabled, update_in_place,
}
use mcp_gateway_python.Prelude.{
  refl, sym, ◌∙◌, inl, inr, ℕ, suc, ◌+◌, length, Dict, insert, List, erase, ◌≡◌, [], ◌∷◌, lookup,
  if◌then◌else◌, String, none, arith, some, not, Bool, Option-cases,
}

pub record Gauges : Type 0 where
  pub registered_servers : ℕ
  pub registered_tools : ℕ

-- The registry with the gauges that it sets.
pub record Metered : Type 0 where
  pub registry : ServerRegistry
  pub gauges : Gauges

-- `sum(len(e.tools) for e in entries if e.server.enabled)`
unfoldable pub total : Dict RegistryEntry → ℕ
total [] = 0
total ((k, e) ∷ es) = if e.server.enabled then length e.tools + total es else total es

-- `_recompute_tool_count`
unfoldable pub recompute_tool_count : Metered → Metered
recompute_tool_count m = record m {
  gauges = record m.gauges { registered_tools = total m.registry.entries };
}

-- `REGISTERED_SERVERS.set(len(self._entries))`, with the entries that an operation leaves
unfoldable pub count_servers : ServerRegistry → Metered → Metered
count_servers r m = record {
  registry = r;
  gauges = record m.gauges { registered_servers = length r.entries };
}

-- An operation of the registry, gauges included.
unfoldable pub metered : Op → Metered → Metered
unfolding count_servers recompute_tool_count
metered (register_op s) m = count_servers (register s m.registry) m
metered (deregister_op sid) m =
    let (found, r) = deregister sid m.registry in
    let m' = count_servers r m in if found then recompute_tool_count m' else m'
metered (set_enabled_op sid on) m = record m { registry = (set_enabled sid on m.registry).1 }
metered (update_op s) m = record m { registry = update_in_place s m.registry }
metered (sync_op sid listing now) m = elim (lookup sid m.registry.entries) [
  | none ↦ m
  | some e ↦
      if not e.server.enabled
      then m
      else recompute_tool_count (record m { registry = (sync_one sid listing now m.registry).1 })
]
metered (answer_op sid listing now) m =
    recompute_tool_count (record m { registry = enter_listing sid listing now m.registry })

-- `close`, after the clients are closed: the gauges keep what they say.
unfoldable pub close : Metered → Metered
close m = record m { registry = record m.registry { entries = [] } }

unfoldable pub run_metered : List Op → Metered → Metered
run_metered [] m = m
run_metered (op ∷ ops) m = run_metered ops (metered op m)
