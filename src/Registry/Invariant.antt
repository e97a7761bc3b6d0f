-- ===== src/Registry/Invariant.antt =====
-- What stays true of the registry, whatever is done to it.
use mcp_gateway_python.Prelude.{
  ◌⊎◌, ℕ, String, Dict, List, Bool, ◌≡◌, [], ◌∷◌, keys, lookup, insert, erase, insert-IsDistinct,
  erase-IsDistinct, IsDistinct, All, arith, eq_iff, refl, Option-cases, some, inl, inr, Bool-cases,
  ◌∙◌, ap, sym,
}
use mcp_gateway_python.Registry.Servers.{
  UpstreamServer, RegistryEntry, ServerRegistry, register, deregister, set_enabled, update_in_place,
}
use mcp_gateway_python.Registry.Naming.{Listing, synced, failed_entry, sync_one, enter_listing}

-- A server's id stands at its entry's key.
abbrev pub AtKey : (String × RegistryEntry) → Type 0
AtKey (k, e) = k ≡ e.server.id

-- No id occurs twice, and each entry stands at its server's id.
abbrev pub IsValid : ServerRegistry → Type 0
IsValid r = IsDistinct (keys r.entries) × All AtKey r.entries

insert-AtKey :
    (k : String) (e : RegistryEntry) (d : Dict RegistryEntry)
    → k ≡ e.server.id
    → All AtKey d
    → All AtKey (insert k e d)
unfolding insert
insert-AtKey k e [] h a = (h, tt)
insert-AtKey k e ((j, x) ∷ d) h a = ground (arith, insert-AtKey k e d h a.1)

erase-AtKey : (k : String) (d : Dict RegistryEntry) → All AtKey d → All AtKey (erase k d)
unfolding erase
erase-AtKey k [] a = tt
erase-AtKey k ((j, x) ∷ d) a = ground (arith, erase-AtKey k d a.1)

pub lookup-AtKey :
    (k : String) (e : RegistryEntry) (d : Dict RegistryEntry)
    → All AtKey d
    → lookup k d ≡ some e
    → k ≡ e.server.id
unfolding lookup
lookup-AtKey k e [] a h = cc
lookup-AtKey k e ((j, x) ∷ d) a h = ground (arith, lookup-AtKey k e d a.1, eq_iff j k)

insert-IsValid :
    (r : ServerRegistry) (k : String) (e : RegistryEntry)
    → k ≡ e.server.id
    → IsValid r
    → IsValid (record r { entries = insert k e r.entries })
insert-IsValid r k e h v = (insert-IsDistinct k e r.entries v.0, insert-AtKey k e r.entries h v.1)

-- The operations of the registry, and a reload's update of a server in place. A sync may be one step, or others come between its request and its
-- answer: then its end is `answer_op`, if its entry is still there.
pub data Op : Type 0 where
  register_op : UpstreamServer → Op
  deregister_op : String → Op
  set_enabled_op : String → Bool → Op
  update_op : UpstreamServer → Op
  sync_op : String → Listing → ℕ → Op
  answer_op : String → Listing → ℕ → Op

unfoldable pub step : Op → ServerRegistry → ServerRegistry
step (register_op s) r = register s r
step (deregister_op sid) r = (deregister sid r).1
step (set_enabled_op sid on) r = (set_enabled sid on r).1
step (update_op s) r = update_in_place s r
step (sync_op sid listing now) r = (sync_one sid listing now r).1
step (answer_op sid listing now) r = enter_listing sid listing now r

unfoldable pub run_ops : List Op → ServerRegistry → ServerRegistry
run_ops [] r = r
run_ops (op ∷ ops) r = run_ops ops (step op r)

pub synced-server :
    (r : ServerRegistry) (e : RegistryEntry) (l : Listing) (now : ℕ)
    → (synced r e l now).server ≡ e.server
unfolding synced failed_entry
synced-server r e l now = ground arith

set_enabled-IsValid :
    (sid : String) (on : Bool) (r : ServerRegistry) → IsValid r → IsValid (set_enabled sid on r).1
unfolding set_enabled
set_enabled-IsValid sid on r v = elim (Option-cases (lookup sid r.entries)) [
  | inl h ↦ let at : (set_enabled sid on r).1 ≡ r = ground arith in rw at v
  | inr (e, h) ↦
      let e' : RegistryEntry = record e { server = record e.server { enabled = on } } in
      let at : (set_enabled sid on r).1 ≡ record r { entries = insert sid e' r.entries } =
        ground arith in
      rw at (insert-IsValid r sid e' (lookup-AtKey sid e r.entries v.1 h) v)
]

update_in_place-IsValid :
    (s : UpstreamServer) (r : ServerRegistry) → IsValid r → IsValid (update_in_place s r)
unfolding update_in_place
update_in_place-IsValid s r v = elim (Option-cases (lookup s.id r.entries)) [
  | inl h ↦ let at : update_in_place s r ≡ r = ground arith in rw at v
  | inr (e, h) ↦
      let e' : RegistryEntry = record e { server = s } in
      let at : update_in_place s r ≡ record r { entries = insert s.id e' r.entries } =
        ground arith in
      rw at (insert-IsValid r s.id e' refl v)
]

enter_listing-IsValid :
    (sid : String) (listing : Listing) (now : ℕ) (r : ServerRegistry)
    → IsValid r
    → IsValid (enter_listing sid listing now r)
unfolding enter_listing
enter_listing-IsValid sid listing now r v = elim (Option-cases (lookup sid r.entries)) [
  | inl h ↦ let at : enter_listing sid listing now r ≡ r = ground arith in rw at v
  | inr (e, h) ↦
      let e' = synced r e listing now in
      let here : sid ≡ e'.server.id =
        lookup-AtKey sid e r.entries v.1 h ∙ ap (λ s. s.id) (sym (synced-server r e listing now)) in
      let at : enter_listing sid listing now r ≡ record r { entries = insert sid e' r.entries } =
        ground arith in
      rw at (insert-IsValid r sid e' here v)
]

-- A sync in one step does nothing, or is the entry of its answer.
pub sync_one-enter_listing :
    (sid : String) (listing : Listing) (now : ℕ) (r : ServerRegistry)
    → ((sync_one sid listing now r).1 ≡ r)
      ⊎ ((sync_one sid listing now r).1 ≡ enter_listing sid listing now r)
unfolding sync_one enter_listing
sync_one-enter_listing sid listing now r = elim (Option-cases (lookup sid r.entries)) [
  | inl h ↦ inl (ground arith)
  | inr (e, h) ↦ elim (Bool-cases e.server.enabled) [
    | inl on ↦ inr (ground arith)
    | inr off ↦ inl (ground arith)
  ]
]

sync_one-IsValid :
    (sid : String) (listing : Listing) (now : ℕ) (r : ServerRegistry)
    → IsValid r
    → IsValid (sync_one sid listing now r).1
sync_one-IsValid sid listing now r v = elim (sync_one-enter_listing sid listing now r) [
  | inl same ↦ rw same v
  | inr entered ↦ rw entered (enter_listing-IsValid sid listing now r v)
]

pub step-IsValid : (op : Op) (r : ServerRegistry) → IsValid r → IsValid (step op r)
unfolding step register deregister
step-IsValid (register_op s) r v = insert-IsValid r s.id _ refl v
step-IsValid (deregister_op sid) r v =
    (erase-IsDistinct sid r.entries v.0, erase-AtKey sid r.entries v.1)
step-IsValid (set_enabled_op sid on) r v = set_enabled-IsValid sid on r v
step-IsValid (update_op s) r v = update_in_place-IsValid s r v
step-IsValid (sync_op sid listing now) r v = sync_one-IsValid sid listing now r v
step-IsValid (answer_op sid listing now) r v = enter_listing-IsValid sid listing now r v

-- Whatever sequence of registrations, removals, switches, updates and syncs is run, with whatever the
-- upstreams list: no id occurs twice, and each entry stands at its server's id.
pub run_ops-IsValid : (ops : List Op) (r : ServerRegistry) → IsValid r → IsValid (run_ops ops r)
unfolding run_ops
run_ops-IsValid [] r v = v
run_ops-IsValid (op ∷ ops) r v = run_ops-IsValid ops (step op r) (step-IsValid op r v)
