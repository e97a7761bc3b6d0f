-- ===== src/Prelude/Dicts.antt =====
-- Python's `dict` with text keys, as the list of its items in insertion order.
use Prim.Native.String.{String}
use mathlib.Core.Path.{◌≡◌, refl}
use mathlib.Core.Bool.{Bool, false}
use mathlib.Core.Option.{Option, none, some}
use mathlib.Core.List.{List, [], ◌∷◌}
use native.Mathlib.Omega.{arith}
use text.Mathlib.Text.{◌==◌}
use text.Mathlib.TextEquality.{eq_iff}
use mathlib.Core.Logic.{inl, inr}
use mcp_gateway_python.Prelude.Tests.{if◌then◌else◌, is_some, Bool-cases}
use mcp_gateway_python.Prelude.Lists.{elem, IsDistinct, In}

abbrev pub Dict {ℓ} : Type ℓ → Type ℓ
Dict V = List (String × V)

abbrev pub keys {ℓ} : {V : Type ℓ} → Dict V → List String
keys [] = []
keys ((k, v) ∷ d) = k ∷ keys d

abbrev pub values {ℓ} : {V : Type ℓ} → Dict V → List V
values [] = []
values ((k, v) ∷ d) = v ∷ values d

module _ {ℓ} {V : Type ℓ} where
  -- `d.get(k)`
  unfoldable pub lookup : String → Dict V → Option V
  lookup k [] = none
  lookup k ((j, v) ∷ d) = if j == k then some v else lookup k d

  -- `d[k] = v`: a known key keeps its place, a new one goes to the end.
  unfoldable pub insert : String → V → Dict V → Dict V
  insert k v [] = (k, v) ∷ []
  insert k v ((j, w) ∷ d) = if j == k then (k, v) ∷ d else (j, w) ∷ insert k v d

  -- `d.pop(k, None)`, `del d[k]`
  unfoldable pub erase : String → Dict V → Dict V
  erase k [] = []
  erase k ((j, v) ∷ d) = let rest = erase k d in if j == k then rest else (j, v) ∷ rest

  -- `k in d`
  abbrev pub contains : String → Dict V → Bool
  contains k d = is_some (lookup k d)

  pub lookup-insert :
      (k j : String) (v : V) (d : Dict V)
      → lookup j (insert k v d) ≡ (if k == j then some v else lookup j d)
  unfolding lookup insert
  lookup-insert k j v [] = refl
  lookup-insert k j v ((i, w) ∷ d) =
      ground (arith, eq_iff k j, eq_iff i k, eq_iff i j, lookup-insert k j v d)

  pub lookup-erase :
      (k j : String) (d : Dict V) → lookup j (erase k d) ≡ (if k == j then none else lookup j d)
  unfolding lookup erase
  lookup-erase k j [] = ground arith
  lookup-erase k j ((i, v) ∷ d) =
      ground (arith, lookup-erase k j d, eq_iff i k, eq_iff i j, eq_iff k j)

  pub lookup-absent : (k : String) (d : Dict V) → elem k (keys d) ≡ false → lookup k d ≡ none
  unfolding lookup
  lookup-absent k [] h = refl
  lookup-absent k ((j, v) ∷ d) h = ground (arith, lookup-absent k d, eq_iff j k, eq_iff k j)

  elem-keys-insert :
      (k j : String) (v : V) (d : Dict V)
      → elem j (keys d) ≡ false
      → (j == k) ≡ false
      → elem j (keys (insert k v d)) ≡ false
  unfolding insert
  elem-keys-insert k j v [] h n = ground arith
  elem-keys-insert k j v ((i, w) ∷ d) h n = ground (arith, elem-keys-insert k j v d, eq_iff i k)

  -- Keys stay distinct.
  pub insert-IsDistinct :
      (k : String) (v : V) (d : Dict V) → IsDistinct (keys d) → IsDistinct (keys (insert k v d))
  unfolding insert
  insert-IsDistinct k v [] h = (refl, tt)
  insert-IsDistinct k v ((i, w) ∷ d) h =
      ground (arith, insert-IsDistinct k v d h.1, elem-keys-insert k i v d h.0, eq_iff i k)

  elem-keys-erase :
      (k j : String) (d : Dict V) → elem j (keys d) ≡ false → elem j (keys (erase k d)) ≡ false
  unfolding erase
  elem-keys-erase k j [] h = refl
  elem-keys-erase k j ((i, w) ∷ d) h = ground (arith, elem-keys-erase k j d)

  pub erase-IsDistinct :
      (k : String) (d : Dict V) → IsDistinct (keys d) → IsDistinct (keys (erase k d))
  unfolding erase
  erase-IsDistinct k [] h = tt
  erase-IsDistinct k ((i, w) ∷ d) h =
      ground (arith, erase-IsDistinct k d h.1, elem-keys-erase k i d h.0)

module _ {V : Type 0} where
  -- A value of the dict stands under one of its keys.
  pub lookup-In :
      (v : V) (d : Dict V)
      → IsDistinct (keys d)
      → In v (values d)
      → (k : String) × (lookup k d ≡ some v)
  unfolding lookup
  lookup-In v [] u i = absurd i
  lookup-In v ((j, w) ∷ d) u (inl same) = (j, ground (arith, same, eq_iff j j))
  lookup-In v ((j, w) ∷ d) u (inr i) =
      let (k, h) = lookup-In v d u.1 i in
      (
        k,
        elim (Bool-cases (j == k)) [
          | inl same ↦
              let gone : lookup k d ≡ none = lookup-absent k d (ground (arith, u, eq_iff j k)) in cc
          | inr other ↦ ground (arith, h)
        ],
      )

  -- What a key finds is a value of the dict.
  pub In-lookup : (k : String) (v : V) (d : Dict V) → lookup k d ≡ some v → In v (values d)
  unfolding lookup
  In-lookup k v [] h = cc
  In-lookup k v ((j, w) ∷ d) h = elim (Bool-cases (j == k)) [
    | inl same ↦ inl (ground arith)
    | inr other ↦ inr (In-lookup k v d (ground arith))
  ]
