-- ===== src/Registry/Tidy.antt =====
-- Names do not clash between the servers, whatever is done to the registry.
pub mod Runs
use mcp_gateway_python.Registry.Invariant.{
  run_ops, Op, IsValid, step, step-IsValid, register_op, deregister_op, lookup-AtKey,
  set_enabled_op, sync_op, synced-server, sync_one-enter_listing, answer_op,
}
use mcp_gateway_python.Registry.Claims.{owned_by_other, names, has_name, build-IsDistinct}
use mcp_gateway_python.Registry.Servers.{
  RegistryEntry, ToolDefinition, NamingConfig, UpstreamServer, ServerRegistry, warn, error,
  register, set_enabled, deregister,
}
use mcp_gateway_python.Registry.Naming.{
  build, define_tool, RawTool, settle, qualified_by, synced, sync_one, build_tool_definitions,
  failed_entry, Listing, failed, claims_of_others, listed, enter_listing,
}
use mathlib.Core.Path.{subst}
use mcp_gateway_python.Prelude.{
  none, some, inl, inr, ok, ℕ, Dict, lookup, String, List, erase, ◌≡◌, insert, All, arith,
  IsDistinct, Bool-cases, false, lookup-erase, ◌==◌, true, ◌∷◌, lookup-insert, eq_iff, [],
  Result-cases, refl, ◌⊎◌, Bool, Option-cases, elem,
}

-- A tool is the server's own.
abbrev pub IsOf : UpstreamServer → ToolDefinition → Type 0
IsOf s t = t.server_id ≡ s.id

-- The tools of a server have names that are distinct, and are its own.
abbrev pub Owns : UpstreamServer → List ToolDefinition → Type 0
Owns s ts = IsDistinct (names ts) × All (IsOf s) ts

-- No other server has a tool of one of these names.
abbrev pub Apart : String → List ToolDefinition → Dict RegistryEntry → Type 0
Apart sid ts es =
    (j q : String) (b : RegistryEntry)
    → lookup j es ≡ some b
    → (sid == j) ≡ false
    → has_name q ts ≡ true
    → has_name q b.tools ≡ false

-- Each server owns its tools, and no two servers have tools of the same name.
abbrev pub Tidy : Dict RegistryEntry → Type 0
Tidy es =
    (i : String) (a : RegistryEntry)
    → lookup i es ≡ some a
    → Owns a.server a.tools × Apart i a.tools es

pub Tidy-insert :
    (k : String) (e : RegistryEntry) (es : Dict RegistryEntry)
    → Tidy es
    → Owns e.server e.tools
    → Apart k e.tools es
    → Tidy (insert k e es)
Tidy-insert k e es tidy owns apart i a h = elim (Bool-cases (k == i)) [
  | inl same ↦
      let here : e ≡ a = ground (arith, lookup-insert k i e es) in
      let key : k ≡ i = ground (arith, eq_iff k i) in
      (
        rw here at owns,
        λ j q b l n x. ground (arith, lookup-insert k j e es, apart j q b, eq_iff k i),
      )
  | inr other ↦
      let (own, away) = tidy i a (ground (arith, lookup-insert k i e es)) in
      (
        own,
        λ j q b l n x. elim (Bool-cases (k == j)) [
          | inl at_k ↦ ground (arith, lookup-insert k i e es, lookup-insert k j e es, apart i q a)
          | inr past ↦ ground (arith, lookup-insert k j e es, away j q b)
        ],
      )
]

pub Tidy-erase : (k : String) (es : Dict RegistryEntry) → Tidy es → Tidy (erase k es)
Tidy-erase k es tidy i a h =
    let (own, away) = tidy i a (ground (arith, lookup-erase k i es)) in
    (own, λ j q b l. away j q b (ground (arith, lookup-erase k j es)))

-- What one server does not own by the search through all, it does not own by a key.
pub owned_by_other-lookup :
    (sid j q : String) (b : RegistryEntry) (es : Dict RegistryEntry)
    → owned_by_other sid q es ≡ false
    → lookup j es ≡ some b
    → (sid == j) ≡ false
    → has_name q b.tools ≡ false
unfolding lookup
owned_by_other-lookup sid j q b [] o h n = ground arith
owned_by_other-lookup sid j q b ((i, e) ∷ es) o h n =
    ground (arith, owned_by_other-lookup sid j q b es, eq_iff i j, eq_iff i sid, eq_iff sid j)

pub has_name-owned :
    (sid q : String) (es : Dict RegistryEntry) (ts : List ToolDefinition)
    → All (λ t. owned_by_other sid t.qualified_name es ≡ false) ts
    → has_name q ts ≡ true
    → owned_by_other sid q es ≡ false
has_name-owned sid q es [] a h = ground arith
has_name-owned sid q es (t ∷ ts) a h = elim (Bool-cases (t.qualified_name == q)) [
  | inl same ↦ ground (arith, eq_iff t.qualified_name q, a.0)
  | inr other ↦ has_name-owned sid q es ts a.1 (ground arith)
]

pub build-server :
    (naming : NamingConfig) (s : UpstreamServer) (es : Dict RegistryEntry) (raws : List RawTool)
    (existing : Dict String) (ts : List ToolDefinition)
    → build naming s es raws existing ≡ ok ts
    → All (IsOf s) ts
unfolding build define_tool
build-server naming s es [] existing ts h =
    let at : [] ≡ ts = ground arith in subst (All (IsOf s)) at tt
build-server naming s es (raw ∷ raws) existing ts h =
    elim (Result-cases
      (settle naming.on_conflict s existing (qualified_by naming.strategy s raw.name es))) [
        | inl (c, k) ↦ ground arith
        | inr (none, k) ↦ build-server naming s es raws existing ts (ground arith)
        | inr (some n, k) ↦ elim (Result-cases (build naming s es raws (insert n s.id existing))) [
          | inl (c, l) ↦ ground arith
          | inr (us, l) ↦
              let rest = build-server naming s es raws (insert n s.id existing) us l in
              let at : define_tool s raw n ∷ us ≡ ts = ground arith in
              subst (All (IsOf s)) at (refl, rest)
        ]
      ]
