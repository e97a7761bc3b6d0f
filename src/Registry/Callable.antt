-- ===== src/Registry/Callable.antt =====
-- A tool's qualified name finds the tool.
use mcp_gateway_python.Registry.Resolution.{has_tool, exact_lem}
use mcp_gateway_python.Registry.Tidy.{Tidy}
use mcp_gateway_python.Registry.Invariant.{IsValid}
use mcp_gateway_python.Registry.Claims.{names, has_name}
use mcp_gateway_python.Registry.Lookup.{exact, exact_in, find_by_qualified_tool}
use mcp_gateway_python.Registry.Servers.{ToolDefinition, RegistryEntry, ServerRegistry}
use mathlib.Core.Path.{subst, ap, sym}
use mcp_gateway_python.Prelude.{
  none, some, inl, inr, Bool, String, List, IsDistinct, In, ◌≡◌, any, true, ◌∷◌, ◌==◌, false, ◌&&◌,
  arith, [], elem, not, eq_iff, refl, eq_refl, values, Option-cases, lookup-In, Bool-cases, lookup,
}

exact_in-none :
    (q : String) (e : RegistryEntry) (ts : List ToolDefinition)
    → exact_in q e ts ≡ none
    → any (λ t. t.qualified_name == q) ts ≡ false
unfolding exact_in
exact_in-none q e [] h = refl
exact_in-none q e (t ∷ ts) h = ground (arith, exact_in-none q e ts)

-- The search finds something where some entry has a tool of the name.
exact-none :
    (q : String) (e : RegistryEntry) (es : List RegistryEntry)
    → exact q es ≡ none
    → In e es
    → any (λ t. t.qualified_name == q) e.tools ≡ false
unfolding exact
exact-none q e [] h i = absurd i
exact-none q e (x ∷ xs) h (inl same) =
    subst (λ y. any (λ t. t.qualified_name == q) y.tools ≡ false) same
      (exact_in-none q x x.tools (ground arith))
exact-none q e (x ∷ xs) h (inr i) = exact-none q e xs (ground arith) i

any-In :
    (p : ToolDefinition → Bool) (t : ToolDefinition) (ts : List ToolDefinition)
    → In t ts
    → p t ≡ true
    → any p ts ≡ true
any-In p t [] i h = absurd i
any-In p t (u ∷ ts) (inl same) h = let at : p u ≡ true = rw same h in ground arith
any-In p t (u ∷ ts) (inr i) h = let at = any-In p t ts i h in ground arith

elem-names :
    (q : String) (p : ToolDefinition → Bool) (ts : List ToolDefinition)
    → any (λ u. u.qualified_name == q && p u) ts ≡ true
    → elem q (names ts) ≡ true
elem-names q p [] h = h
elem-names q p (u ∷ ts) h =
    ground (arith, elem-names q p ts, eq_iff u.qualified_name q, eq_iff q u.qualified_name)

names-In :
    (t : ToolDefinition) (ts : List ToolDefinition)
    → In t ts
    → elem t.qualified_name (names ts) ≡ true
names-In t [] i = absurd i
names-In t (u ∷ ts) (inl same) =
    let at : u.qualified_name ≡ t.qualified_name = ap (λ v. v.qualified_name) same in
    ground (arith, eq_iff t.qualified_name u.qualified_name)
names-In t (u ∷ ts) (inr i) = let at = names-In t ts i in ground arith

-- With distinct names, a tool's qualified name has its raw name only.
any-raw :
    (t : ToolDefinition) (raw : String) (ts : List ToolDefinition)
    → IsDistinct (names ts)
    → In t ts
    → any (λ u. u.qualified_name == t.qualified_name && u.name == raw) ts ≡ true
    → raw ≡ t.name
any-raw t raw [] d i h = absurd i
any-raw t raw (u ∷ ts) d (inl same) h =
    let name : u.name ≡ t.name = ap (λ v. v.name) same in
    let qualified : u.qualified_name ≡ t.qualified_name = ap (λ v. v.qualified_name) same in
    ground (arith, elem-names t.qualified_name (λ v. v.name == raw) ts, eq_iff u.name raw)
any-raw t raw (u ∷ ts) d (inr i) h =
    let at = names-In t ts i in
    any-raw t raw ts d.1 i (ground (arith, eq_iff u.qualified_name t.qualified_name))

has_name-In :
    (t : ToolDefinition) (ts : List ToolDefinition)
    → In t ts
    → (t.qualified_name == "") ≡ false
    → has_name t.qualified_name ts ≡ true
has_name-In t ts i named =
    any-In (λ u. not (u.qualified_name == "") && u.qualified_name == t.qualified_name) t ts i
      (ground (arith, eq_refl t.qualified_name))

has_tool-has_name :
    (q raw : String) (ts : List ToolDefinition)
    → (q == "") ≡ false
    → any (λ t. t.qualified_name == q && t.name == raw) ts ≡ true
    → has_name q ts ≡ true
has_tool-has_name q raw [] named h = ground arith
has_tool-has_name q raw (t ∷ ts) named h =
    ground (arith, has_tool-has_name q raw ts, eq_iff t.qualified_name q)

module _ (r : ServerRegistry) (valid : IsValid r) (tidy : Tidy r.entries) where
  -- The entry that the search finds is the entry that has the tool.
  found-same :
      (e x : RegistryEntry) (t : ToolDefinition) (raw : String)
      → In e (values r.entries)
      → In t e.tools
      → (t.qualified_name == "") ≡ false
      → In x (values r.entries)
      → has_tool t.qualified_name raw x ≡ true
      → x ≡ e
  found-same e x t raw i k named j has =
      let (at_e, le) = lookup-In e r.entries valid.0 i in
      let (at_x, lx) = lookup-In x r.entries valid.0 j in
      elim (Bool-cases (at_e == at_x)) [
        | inl same ↦
            let key : at_e ≡ at_x = ground (arith, eq_iff at_e at_x) in
            let both : lookup at_x r.entries ≡ some e = rw (sym key) le in ground arith
        | inr other ↦
            let theirs = has_tool-has_name t.qualified_name raw x.tools named has in
            let ours = has_name-In t e.tools k named in
            let apart = (tidy at_e e le).1 at_x t.qualified_name x lx other ours in ground arith
      ]

  -- A tool of an entry, if its qualified name is not empty, is what this name finds.
  pub find_by_qualified_tool-own :
      (e : RegistryEntry) (t : ToolDefinition)
      → In e (values r.entries)
      → In t e.tools
      → (t.qualified_name == "") ≡ false
      → find_by_qualified_tool t.qualified_name r ≡ some (e, t.name)
  unfolding find_by_qualified_tool
  find_by_qualified_tool-own e t i k named =
      let q = t.qualified_name in
      elim (Option-cases (exact q (values r.entries))) [
        | inl h ↦
            let missed = exact-none q e (values r.entries) h i in
            let met = any-In (λ u. u.qualified_name == q) t e.tools k (eq_refl q) in ground arith
        | inr ((x, raw), h) ↦
            let (j, has) = exact_lem q x raw (values r.entries) h in
            let same = found-same e x t raw i k named j has in
            let (at_e, le) = lookup-In e r.entries valid.0 i in
            let name =
              any-raw t raw e.tools (tidy at_e e le).0.0 k
                (subst (λ y. has_tool q raw y ≡ true) same has) in
            ground arith
      ]
