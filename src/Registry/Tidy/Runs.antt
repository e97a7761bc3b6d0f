-- ===== src/Registry/Tidy/Runs.antt =====
-- Names stay apart in every run of the registry.
use mathlib.Core.Path.{subst}
use mcp_gateway_python.Registry.Tidy.{
  IsOf, Owns, Apart, Tidy, Tidy-insert, Tidy-erase, owned_by_other-lookup, has_name-owned,
  build-server,
}
use mcp_gateway_python.Registry.Invariant.{
  run_ops, Op, IsValid, step, step-IsValid, register_op, deregister_op, lookup-AtKey,
  set_enabled_op, update_op, sync_op, synced-server, sync_one-enter_listing, answer_op,
}
use mcp_gateway_python.Registry.Claims.{build-IsDistinct}
use mcp_gateway_python.Registry.Servers.{
  RegistryEntry, ToolDefinition, NamingConfig, UpstreamServer, ServerRegistry, warn, error,
  register, set_enabled, deregister, update_in_place,
}
use mcp_gateway_python.Registry.Naming.{
  RawTool, synced, sync_one, build_tool_definitions, failed_entry, Listing, failed,
  claims_of_others, listed, enter_listing,
}
use mcp_gateway_python.Prelude.{
  sym, All, some, inl, inr, ok, ℕ, lookup, String, List, ◌≡◌, insert, arith, ◌∷◌, [], Result-cases,
  refl, ◌⊎◌, Bool, Option-cases,
}

-- The policy keeps the names apart: it drops or refuses a name that is taken.
abbrev pub Strict : NamingConfig → Type 0
Strict n = (n.on_conflict ≡ warn) ⊎ (n.on_conflict ≡ error)

module _ (r : ServerRegistry) (strict : Strict r.naming) (valid : IsValid r)
    (tidy : Tidy r.entries) where
  built-Tidy :
      (s : UpstreamServer) (raws : List RawTool) (ts : List ToolDefinition)
      → build_tool_definitions r s raws ≡ ok ts
      → Owns s ts × Apart s.id ts r.entries
  unfolding build_tool_definitions
  built-Tidy s raws ts h =
      let (distinct, free) = build-IsDistinct r s raws ts strict h in
      (
        (
          distinct,
          build-server r.naming s r.entries raws (claims_of_others s.id r.entries []) ts h,
        ),
        λ j q b l n x.
            owned_by_other-lookup s.id j q b r.entries (has_name-owned s.id q r.entries ts free x) l
              n,
      )

  synced-Tidy :
      (e : RegistryEntry) (listing : Listing) (now : ℕ)
      → lookup e.server.id r.entries ≡ some e
      → Owns e.server (synced r e listing now).tools
        × Apart e.server.id (synced r e listing now).tools r.entries
  unfolding synced failed_entry
  synced-Tidy e (failed text) now h = tidy e.server.id e h
  synced-Tidy e (listed raws) now h = elim (Result-cases (build_tool_definitions r e.server raws)) [
    | inl (c, k) ↦
        let at : (synced r e (listed raws) now).tools ≡ e.tools = ground arith in
        rw at (tidy e.server.id e h)
    | inr (ts, k) ↦
        let at : (synced r e (listed raws) now).tools ≡ ts = ground arith in
        rw at (built-Tidy e.server raws ts k)
  ]

  set_enabled-Tidy : (sid : String) (on : Bool) → Tidy (set_enabled sid on r).1.entries
  unfolding set_enabled
  set_enabled-Tidy sid on = elim (Option-cases (lookup sid r.entries)) [
    | inl h ↦ let at : (set_enabled sid on r).1 ≡ r = ground arith in rw at tidy
    | inr (e, h) ↦
        let e' : RegistryEntry = record e { server = record e.server { enabled = on } } in
        let at : (set_enabled sid on r).1.entries ≡ insert sid e' r.entries = ground arith in
        let (own, away) = tidy sid e h in rw at (Tidy-insert sid e' r.entries tidy own away)
  ]

  update_in_place-Tidy : (s : UpstreamServer) → Tidy (update_in_place s r).entries
  unfolding update_in_place
  update_in_place-Tidy s = elim (Option-cases (lookup s.id r.entries)) [
    | inl h ↦ let at : update_in_place s r ≡ r = ground arith in rw at tidy
    | inr (e, h) ↦
        let e' : RegistryEntry = record e { server = s } in
        let at : (update_in_place s r).entries ≡ insert s.id e' r.entries = ground arith in
        let key : e.server.id ≡ s.id = sym (lookup-AtKey s.id e r.entries valid.1 h) in
        let ((distinct, own), away) = tidy s.id e h in
        let kept : All (IsOf s) e.tools = subst (λ i. All (λ t. t.server_id ≡ i) e.tools) key own in
        rw at (Tidy-insert s.id e' r.entries tidy (distinct, kept) away)
  ]

  enter_listing-Tidy :
      (sid : String) (listing : Listing) (now : ℕ) → Tidy (enter_listing sid listing now r).entries
  unfolding enter_listing
  enter_listing-Tidy sid listing now = elim (Option-cases (lookup sid r.entries)) [
    | inl h ↦ let at : enter_listing sid listing now r ≡ r = ground arith in rw at tidy
    | inr (e, h) ↦
        let e' = synced r e listing now in
        let key : sid ≡ e.server.id = lookup-AtKey sid e r.entries valid.1 h in
        let (own, away) = synced-Tidy e listing now (rw key at h) in
        let at : (enter_listing sid listing now r).entries ≡ insert e.server.id e' r.entries =
          ground arith in
        rw at
          (Tidy-insert e.server.id e' r.entries tidy (rw (synced-server r e listing now) own) away)
  ]

  sync_one-Tidy :
      (sid : String) (listing : Listing) (now : ℕ) → Tidy (sync_one sid listing now r).1.entries
  sync_one-Tidy sid listing now = elim (sync_one-enter_listing sid listing now r) [
    | inl same ↦ rw same tidy
    | inr entered ↦ rw entered (enter_listing-Tidy sid listing now)
  ]

  step-Tidy : (op : Op) → Tidy (step op r).entries
  unfolding step register deregister
  step-Tidy (register_op s) =
      Tidy-insert s.id _ r.entries tidy (tt, tt) (λ j q b l n x. ground arith)
  step-Tidy (deregister_op sid) = Tidy-erase sid r.entries tidy
  step-Tidy (set_enabled_op sid on) = set_enabled-Tidy sid on
  step-Tidy (update_op s) = update_in_place-Tidy s
  step-Tidy (sync_op sid listing now) = sync_one-Tidy sid listing now
  step-Tidy (answer_op sid listing now) = enter_listing-Tidy sid listing now

step-naming : (op : Op) (r : ServerRegistry) → (step op r).naming ≡ r.naming
unfolding step register deregister set_enabled update_in_place sync_one enter_listing
step-naming (register_op s) r = refl
step-naming (deregister_op sid) r = refl
step-naming (set_enabled_op sid on) r = ground arith
step-naming (update_op s) r = ground arith
step-naming (sync_op sid listing now) r = ground arith
step-naming (answer_op sid listing now) r = ground arith

-- Whatever sequence of operations is run, unless conflicts are settled by a suffix: the names of the
-- tools of a server are distinct, and no two servers have tools of the same name.
pub run_ops-Tidy :
    (ops : List Op) (r : ServerRegistry)
    → Strict r.naming
    → IsValid r
    → Tidy r.entries
    → Tidy (run_ops ops r).entries
unfolding run_ops
run_ops-Tidy [] r s v t = t
run_ops-Tidy (op ∷ ops) r s v t =
    run_ops-Tidy ops (step op r) (rw (step-naming op r) s) (step-IsValid op r v)
      (step-Tidy r s v t op)

pub Tidy-empty : Tidy []
unfolding lookup
Tidy-empty i a h = absurd (cc h)
