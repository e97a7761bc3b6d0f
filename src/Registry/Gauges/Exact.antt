-- ===== src/Registry/Gauges/Exact.antt =====
-- When the gauges are right.
use mcp_gateway_python.Registry.Gauges.{
  Metered, total, recompute_tool_count, count_servers, metered, run_metered,
}
use mcp_gateway_python.Registry.Naming.{sync_one, Listing, synced, enter_listing}
use mcp_gateway_python.Registry.Invariant.{
  Op, register_op, deregister_op, set_enabled_op, update_op, sync_op, step, answer_op,
  sync_one-enter_listing,
}
use mcp_gateway_python.Registry.Servers.{
  ServerRegistry, RegistryEntry, register, deregister, set_enabled, update_in_place, UpstreamServer,
}
use mcp_gateway_python.Prelude.{
  refl, sym, ◌∙◌, inl, inr, ℕ, length, Dict, insert, List, erase, ◌≡◌, [], ◌∷◌, lookup, String,
  none, arith, some, Bool, Option-cases,
}

-- The gauges tell the number of the servers and that of the tools of the enabled ones.
abbrev pub IsExact : Metered → Type 0
IsExact m =
    (m.gauges.registered_servers ≡ length m.registry.entries)
    × (m.gauges.registered_tools ≡ total m.registry.entries)

-- Only ids that are not there are registered, and no server is switched on or off or updated in place.
abbrev pub Steady : List Op → Metered → Type 0
Steady [] m = Unit {0}
Steady (register_op s ∷ ops) m =
    (lookup s.id m.registry.entries ≡ none) × Steady ops (metered (register_op s) m)
Steady (set_enabled_op sid on ∷ ops) m = ⊥
Steady (update_op s ∷ ops) m = ⊥
Steady (op ∷ ops) m = Steady ops (metered op m)

total-insert :
    (k : String) (e : RegistryEntry) (es : Dict RegistryEntry)
    → lookup k es ≡ none
    → e.tools ≡ []
    → total (insert k e es) ≡ total es
unfolding total insert lookup
total-insert k e [] h n = ground arith
total-insert k e ((j, x) ∷ es) h n = ground (arith, total-insert k e es)

erase-absent : (k : String) (es : Dict RegistryEntry) → lookup k es ≡ none → erase k es ≡ es
unfolding erase lookup
erase-absent k [] h = refl
erase-absent k ((j, x) ∷ es) h = ground (arith, erase-absent k es)

length-insert :
    (k : String) (e x : RegistryEntry) (es : Dict RegistryEntry)
    → lookup k es ≡ some x
    → length (insert k e es) ≡ length es
unfolding insert lookup
length-insert k e x [] h = ground arith
length-insert k e x ((j, y) ∷ es) h = ground (arith, length-insert k e x es)

-- The gauges do not change what the operations do.
metered-step : (op : Op) (m : Metered) → (metered op m).registry ≡ step op m.registry
unfolding metered step count_servers recompute_tool_count deregister sync_one
metered-step (register_op s) m = refl
metered-step (deregister_op sid) m = ground arith
metered-step (set_enabled_op sid on) m = refl
metered-step (update_op s) m = refl
metered-step (sync_op sid listing now) m = ground arith
metered-step (answer_op sid listing now) m = refl

set_enabled-length :
    (sid : String) (on : Bool) (r : ServerRegistry)
    → length (set_enabled sid on r).1.entries ≡ length r.entries
unfolding set_enabled
set_enabled-length sid on r = elim (Option-cases (lookup sid r.entries)) [
  | inl h ↦ ground arith
  | inr (e, h) ↦
      let e' : RegistryEntry = record e { server = record e.server { enabled = on } } in
      ground (arith, length-insert sid e' e r.entries h)
]

update_in_place-length :
    (s : UpstreamServer) (r : ServerRegistry)
    → length (update_in_place s r).entries ≡ length r.entries
unfolding update_in_place
update_in_place-length s r = elim (Option-cases (lookup s.id r.entries)) [
  | inl h ↦ ground arith
  | inr (e, h) ↦
      let e' : RegistryEntry = record e { server = s } in
      ground (arith, length-insert s.id e' e r.entries h)
]

enter_listing-length :
    (sid : String) (listing : Listing) (now : ℕ) (r : ServerRegistry)
    → length (enter_listing sid listing now r).entries ≡ length r.entries
unfolding enter_listing
enter_listing-length sid listing now r = elim (Option-cases (lookup sid r.entries)) [
  | inl h ↦ ground arith
  | inr (e, h) ↦ ground (arith, length-insert sid (synced r e listing now) e r.entries h)
]

sync_one-length :
    (sid : String) (listing : Listing) (now : ℕ) (r : ServerRegistry)
    → length (sync_one sid listing now r).1.entries ≡ length r.entries
sync_one-length sid listing now r = elim (sync_one-enter_listing sid listing now r) [
  | inl same ↦ rw same refl
  | inr entered ↦ rw entered (enter_listing-length sid listing now r)
]

-- The gauge of the servers is right after each operation.
metered-servers :
    (op : Op) (m : Metered)
    → m.gauges.registered_servers ≡ length m.registry.entries
    → (metered op m).gauges.registered_servers ≡ length (metered op m).registry.entries
unfolding metered count_servers recompute_tool_count
metered-servers (register_op s) m h = refl
metered-servers (deregister_op sid) m h = ground arith
metered-servers (set_enabled_op sid on) m h = h ∙ sym (set_enabled-length sid on m.registry)
metered-servers (update_op s) m h = h ∙ sym (update_in_place-length s m.registry)
metered-servers (sync_op sid listing now) m h =
    ground (arith, sync_one-length sid listing now m.registry)
metered-servers (answer_op sid listing now) m h =
    h ∙ sym (enter_listing-length sid listing now m.registry)

-- The gauge of the tools is right after a steady operation.
metered-tools :
    (op : Op) (m : Metered)
    → Steady (op ∷ []) m
    → m.gauges.registered_tools ≡ total m.registry.entries
    → (metered op m).gauges.registered_tools ≡ total (metered op m).registry.entries
unfolding metered count_servers recompute_tool_count register deregister
metered-tools (register_op s) m st h = h ∙ sym (total-insert s.id _ m.registry.entries st.0 refl)
metered-tools (deregister_op sid) m st h = elim (Option-cases (lookup sid m.registry.entries)) [
  | inl absent ↦ ground (arith, erase-absent sid m.registry.entries absent)
  | inr (e, there) ↦ ground arith
]
metered-tools (set_enabled_op sid on) m st h = absurd st
metered-tools (update_op s) m st h = absurd st
metered-tools (sync_op sid listing now) m st h = ground arith
metered-tools (answer_op sid listing now) m st h = refl

-- The gauge of the servers is right whatever is done.
pub run_metered-servers :
    (ops : List Op) (m : Metered)
    → m.gauges.registered_servers ≡ length m.registry.entries
    → (run_metered ops m).gauges.registered_servers ≡ length (run_metered ops m).registry.entries
unfolding run_metered
run_metered-servers [] m h = h
run_metered-servers (op ∷ ops) m h = run_metered-servers ops (metered op m) (metered-servers op m h)

Steady-first : (op : Op) (ops : List Op) (m : Metered) → Steady (op ∷ ops) m → Steady (op ∷ []) m
Steady-first (register_op s) ops m st = (st.0, tt)
Steady-first (deregister_op sid) ops m st = tt
Steady-first (set_enabled_op sid on) ops m st = st
Steady-first (update_op s) ops m st = st
Steady-first (sync_op sid listing now) ops m st = tt
Steady-first (answer_op sid listing now) ops m st = tt

Steady-rest :
    (op : Op) (ops : List Op) (m : Metered) → Steady (op ∷ ops) m → Steady ops (metered op m)
Steady-rest (register_op s) ops m st = st.1
Steady-rest (deregister_op sid) ops m st = st
Steady-rest (set_enabled_op sid on) ops m st = absurd st
Steady-rest (update_op s) ops m st = absurd st
Steady-rest (sync_op sid listing now) ops m st = st
Steady-rest (answer_op sid listing now) ops m st = st

-- As long as only ids that are not there are registered, and no server is switched on or off or updated in
-- place, both gauges stay right, also after removals and after syncs that fail: they tell the number of the
-- servers, and that of the tools of the enabled ones.
pub run_metered-IsExact :
    (ops : List Op) (m : Metered) → Steady ops m → IsExact m → IsExact (run_metered ops m)
unfolding run_metered
run_metered-IsExact [] m st h = h
run_metered-IsExact (op ∷ ops) m st h =
    run_metered-IsExact ops (metered op m) (Steady-rest op ops m st)
      (metered-servers op m h.0, metered-tools op m (Steady-first op ops m st) h.1)
