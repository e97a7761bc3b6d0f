-- ===== src/Registry/Resolution.antt =====
-- What the resolution of a tool's name finds.
use mcp_gateway_python.Prelude.{
  String, List, Bool, ◌≡◌, ◌⊎◌, ◌&&◌, ◌==◌, true, [], ◌∷◌, any, some, values, arith, eq_iff, inl,
  inr, Option-cases, Bool-cases, refl, All, All-append, In,
}
use mcp_gateway_python.Prelude.Text.{dot, has_char, before, after}
use mcp_gateway_python.Registry.Servers.{ToolDefinition, RegistryEntry, ServerRegistry, prefix_of}
use mcp_gateway_python.Registry.Lookup.{
  exact_in, exact, by_prefix, matches_in, bare_matches, the_only, find_by_qualified_tool,
}

-- A tool of the entry has the qualified name and the raw one.
abbrev pub has_tool : String → String → RegistryEntry → Bool
has_tool q raw e = any (λ t. t.qualified_name == q && t.name == raw) e.tools

exact_in_lem :
    (q : String) (x e : RegistryEntry) (raw : String) (ts : List ToolDefinition)
    → exact_in q x ts ≡ some (e, raw)
    → (x ≡ e) × (any (λ t. t.qualified_name == q && t.name == raw) ts ≡ true)
unfolding exact_in
exact_in_lem q x e raw [] h = ground arith
exact_in_lem q x e raw (t ∷ ts) h = ground (arith, exact_in_lem q x e raw ts, eq_iff t.name raw)

pub exact_lem :
    (q : String) (e : RegistryEntry) (raw : String) (es : List RegistryEntry)
    → exact q es ≡ some (e, raw)
    → In e es × (has_tool q raw e ≡ true)
unfolding exact
exact_lem q e raw [] h = ground arith
exact_lem q e raw (x ∷ xs) h = elim (Option-cases (exact_in q x x.tools)) [
  | inl n ↦ let (here, has) = exact_lem q e raw xs (ground arith) in (inr here, has)
  | inr (f, m) ↦
      let (same, has) = exact_in_lem q x e raw x.tools (ground arith) in (inl same, rw same at has)
]

by_prefix_lem :
    (prefix raw : String) (e : RegistryEntry) (found : String) (es : List RegistryEntry)
    → by_prefix prefix raw es ≡ some (e, found)
    → In e es × (prefix_of e.server ≡ prefix) × (found ≡ raw)
unfolding by_prefix
by_prefix_lem prefix raw e found [] h = ground arith
by_prefix_lem prefix raw e found (x ∷ xs) h =
    ground (arith, by_prefix_lem prefix raw e found xs, eq_iff (prefix_of x.server) prefix)

-- The entry is one of the list, and the name is the one that was asked for.
abbrev IsMatch : String → List RegistryEntry → RegistryEntry × String → Type 0
IsMatch q es m = In m.0 es × (m.1 ≡ q)

matches_in_lem :
    (q : String) (all : List RegistryEntry) (x : RegistryEntry) (ts : List ToolDefinition)
    → In x all
    → All (IsMatch q all) (matches_in q x ts)
unfolding matches_in
matches_in_lem q all x [] i = tt
matches_in_lem q all x (t ∷ ts) i = ground (arith, matches_in_lem q all x ts i)

bare_matches_lem :
    (q : String) (all es : List RegistryEntry)
    → ((e : RegistryEntry) → In e es → In e all)
    → All (IsMatch q all) (bare_matches q es)
unfolding bare_matches
bare_matches_lem q all [] sub = tt
bare_matches_lem q all (x ∷ xs) sub =
    All-append (IsMatch q all) (matches_in q x x.tools) (bare_matches q xs)
      (matches_in_lem q all x x.tools (sub x (inl refl)))
      (bare_matches_lem q all xs (λ e i. sub e (inr i)))

the_only_lem :
    (ms : List (RegistryEntry × String)) (m : RegistryEntry × String)
    → the_only ms ≡ some m
    → ms ≡ m ∷ []
unfolding the_only
the_only_lem [] m h = ground arith
the_only_lem (x ∷ []) m h = ground arith
the_only_lem (x ∷ y ∷ ms) m h = ground arith

bare_lem :
    (q : String) (e : RegistryEntry) (raw : String) (es : List RegistryEntry)
    → the_only (bare_matches q es) ≡ some (e, raw)
    → In e es × (raw ≡ q) × (bare_matches q es ≡ (e, raw) ∷ [])
bare_lem q e raw es h =
    let single = the_only_lem (bare_matches q es) (e, raw) h in
    let found = bare_matches_lem q es es (λ x i. i) in
    let here = (rw single at found) in (here.0.0, here.0.1, single)

-- What a name resolves to is a registered server, and the tool's raw name; and the server has a tool
-- of that qualified and raw name, or the name has a dot, with the server's prefix before it and the
-- raw name behind, or the name is the bare name of exactly one tool of all servers.
pub find_by_qualified_tool_sound :
    (q : String) (r : ServerRegistry) (e : RegistryEntry) (raw : String)
    → find_by_qualified_tool q r ≡ some (e, raw)
    → In e (values r.entries)
      × ((has_tool q raw e ≡ true)
          ⊎ ((has_char dot q ≡ true) × (prefix_of e.server ≡ before dot q) × (raw ≡ after dot q))
          ⊎ ((raw ≡ q) × (bare_matches q (values r.entries) ≡ (e, raw) ∷ [])))
unfolding find_by_qualified_tool
find_by_qualified_tool_sound q r e raw h =
    let es = values r.entries in
    elim (Option-cases (exact q es)) [
      | inr (m, x) ↦ let (here, has) = exact_lem q e raw es (ground arith) in (here, inl has)
      | inl x ↦ elim (Bool-cases (has_char dot q)) [
        | inr plain ↦
            let (here, name, single) = bare_lem q e raw es (ground arith) in
            (here, inr (inr (name, single)))
        | inl dotted ↦ elim (Option-cases (by_prefix (before dot q) (after dot q) es)) [
          | inr (m, b) ↦
              let (here, prefix, rest) =
                by_prefix_lem (before dot q) (after dot q) e raw es (ground arith) in
              (here, inr (inl (dotted, prefix, rest)))
          | inl b ↦
              let (here, name, single) = bare_lem q e raw es (ground arith) in
              (here, inr (inr (name, single)))
        ]
      ]
    ]
