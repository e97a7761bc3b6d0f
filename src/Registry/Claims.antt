-- ===== src/Registry/Claims.antt =====
-- Which names the tools of a server get.
use mcp_gateway_python.Prelude.{
  String, Dict, List, Bool, ◌≡◌, ◌⊎◌, false, [], ◌∷◌, map, any, not, ◌&&◌, ◌||◌, ◌==◌, ok, none,
  some, is_some, lookup, insert, lookup-insert, elem, IsDistinct, All, arith, refl, Result-cases,
  Result, inl, inr, err,
}
use mcp_gateway_python.Registry.Servers.{
  UpstreamServer, ToolDefinition, RegistryEntry, ServerRegistry, NamingConfig, warn, error,
}
use mcp_gateway_python.Registry.Naming.{
  RawTool, claim_all, claims_of_others, qualified_by, settle, build, build_tool_definitions,
  define_tool, ToolNameConflict,
}

abbrev pub names : List ToolDefinition → List String
names ts = map (λ t. t.qualified_name) ts

-- Whether one of the tools has the name, which is not empty.
abbrev pub has_name : String → List ToolDefinition → Bool
has_name q ts = any (λ t. not (t.qualified_name == "") && t.qualified_name == q) ts

-- Whether a tool of another server has the name; the empty name is passed over, as the source does.
abbrev pub owned_by_other : String → String → Dict RegistryEntry → Bool
owned_by_other sid q [] = false
owned_by_other sid q ((other, e) ∷ es) =
    (not (other == sid) && has_name q e.tools) || owned_by_other sid q es

claim_all_lem :
    (sid q : String) (ts : List ToolDefinition) (existing : Dict String)
    → is_some (lookup q (claim_all sid ts existing))
      ≡ (is_some (lookup q existing) || has_name q ts)
claim_all_lem sid q [] existing = ground arith
claim_all_lem sid q (t ∷ ts) existing = ground (
  arith,
  claim_all_lem sid q ts existing,
  claim_all_lem sid q ts (insert t.qualified_name sid existing),
  lookup-insert t.qualified_name q sid existing,
)

claims_of_others_lem :
    (sid q : String) (es : Dict RegistryEntry) (existing : Dict String)
    → is_some (lookup q (claims_of_others sid es existing))
      ≡ (is_some (lookup q existing) || owned_by_other sid q es)
unfolding claims_of_others
claims_of_others_lem sid q [] existing = ground arith
claims_of_others_lem sid q ((other, e) ∷ es) existing = ground (
  arith,
  claims_of_others_lem sid q es existing,
  claims_of_others_lem sid q es (claim_all other e.tools existing),
  claim_all_lem other q e.tools existing,
)

module _ (naming : NamingConfig) (s : UpstreamServer) (es : Dict RegistryEntry)
    (strict : (naming.on_conflict ≡ warn) ⊎ (naming.on_conflict ≡ error)) where
  abbrev Fresh : Dict String → ToolDefinition → Type 0
  Fresh existing t = lookup t.qualified_name existing ≡ none

  settle-fresh :
      (existing : Dict String) (q n : String)
      → settle naming.on_conflict s existing q ≡ ok (some n)
      → (n ≡ q) × (lookup q existing ≡ none)
  unfolding settle
  settle-fresh existing q n h = ground arith

  Fresh-insert :
      (q : String) (existing : Dict String) (ts : List ToolDefinition)
      → All (Fresh (insert q s.id existing)) ts
      → (elem q (names ts) ≡ false) × All (Fresh existing) ts
  Fresh-insert q existing [] h = (refl, tt)
  Fresh-insert q existing (t ∷ ts) h =
      let (apart, fresh) = Fresh-insert q existing ts h.1 in
      let l = lookup-insert q t.qualified_name s.id existing in
      (ground (arith, l), (ground (arith, l), fresh))

  abbrev Good : Dict String → Result ToolNameConflict (List ToolDefinition) → Type 0
  Good existing (ok ts) = All (Fresh existing) ts × IsDistinct (names ts)
  Good existing (err c) = Unit {0}

  build-Good :
      (raws : List RawTool) (existing : Dict String)
      → Good existing (build naming s es raws existing)
  unfolding build define_tool
  build-Good [] existing = (tt, tt)
  build-Good (raw ∷ raws) existing =
      let q = qualified_by naming.strategy s raw.name es in
      elim (Result-cases (settle naming.on_conflict s existing q)) [
        | inl (c, h) ↦
            let at : build naming s es (raw ∷ raws) existing ≡ err c = ground arith in rw at tt
        | inr (none, h) ↦
            let at : build naming s es (raw ∷ raws) existing ≡ build naming s es raws existing =
              ground arith in
            rw at (build-Good raws existing)
        | inr (some n, h) ↦
            let rest = build-Good raws (insert n s.id existing) in
            let (same, free) = settle-fresh existing q n h in
            elim (Result-cases (build naming s es raws (insert n s.id existing))) [
              | inl (c, k) ↦
                  let at : build naming s es (raw ∷ raws) existing ≡ err c = ground arith in
                  rw at tt
              | inr (ts, k) ↦
                  let good : Good (insert n s.id existing) (ok ts) = rw k at rest in
                  let (apart, older) = Fresh-insert n existing ts good.0 in
                  let at : build naming s es (raw ∷ raws) existing ≡ ok (define_tool s raw n ∷ ts) =
                    ground arith in
                  rw at ((rw same free, older), (apart, good.1))
            ]
      ]

unowned :
    (sid : String) (es : Dict RegistryEntry) (ts : List ToolDefinition)
    → All (λ t. lookup t.qualified_name (claims_of_others sid es []) ≡ none) ts
    → All (λ t. owned_by_other sid t.qualified_name es ≡ false) ts
unfolding lookup
unowned sid es [] h = tt
unowned sid es (t ∷ ts) h =
    (ground (arith, claims_of_others_lem sid t.qualified_name es []), unowned sid es ts h.1)

module _ (r : ServerRegistry) (s : UpstreamServer) (raws : List RawTool)
    (ts : List ToolDefinition) where
  -- Unless conflicts are to be settled by a suffix, the tools that a server gets have names that are
  -- distinct, and each of them that is not empty is the name of no tool of another server. An empty
  -- name is not claimed, so that several servers can have one.
  pub build-IsDistinct :
      (r.naming.on_conflict ≡ warn) ⊎ (r.naming.on_conflict ≡ error)
      → build_tool_definitions r s raws ≡ ok ts
      → IsDistinct (names ts) × All (λ t. owned_by_other s.id t.qualified_name r.entries ≡ false) ts
  unfolding build_tool_definitions
  build-IsDistinct strict h =
      let existing = claims_of_others s.id r.entries [] in
      let good = build-Good r.naming s r.entries strict raws existing in
      let (fresh, distinct) = (rw h at good) in (distinct, unowned s.id r.entries ts fresh)
