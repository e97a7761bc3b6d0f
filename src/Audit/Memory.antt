-- ===== src/Audit/Memory.antt =====
-- A table in memory that does what SQL says: it shows that the hypothesis on the database can hold.
use mcp_gateway_python.Audit.Pages.{Executes, satisfies}
use mcp_gateway_python.Audit.Sorting.{IsNewestFirst, All-Permᴰ}
use mcp_gateway_python.Audit.Query.{Row, Database}
use mathlib.Core.List.{Permᴰ}
use mathlib.Core.List.Permᴰ
use mathlib.Core.List.Permᴰ.{cons, swap, trans}
use Prim.Native.Nat.{ℕ}
use mcp_gateway_python.Prelude.{
  take, drop, refl, All, true, Bool, List, ltb, leb, inl, inr, Bool-cases, ◌∷◌, false, ◌≤◌, select,
  arith, [], if◌then◌else◌,
}

-- Where a row goes among those of its own timestamp: before them, or behind.
abbrev goes_first : Bool → Row → Row → Bool
goes_first true r x = leb x.timestamp r.timestamp
goes_first false r x = ltb x.timestamp r.timestamp

unfoldable pub place : Bool → Row → List Row → List Row
place front r [] = r ∷ []
place front r (x ∷ xs) = if goes_first front r x then r ∷ x ∷ xs else x ∷ place front r xs

unfoldable pub sort : Bool → List Row → List Row
unfolding place
sort front [] = []
sort front (r ∷ rs) = place front r (sort front rs)

place-Permᴰ : (front : Bool) (r : Row) (xs : List Row) → Permᴰ (r ∷ xs) (place front r xs)
unfolding place
place-Permᴰ front r [] = Permᴰ.refl (r ∷ [])
place-Permᴰ front r (x ∷ xs) = elim (Bool-cases (goes_first front r x)) [
  | inl first ↦ rw first (Permᴰ.refl (r ∷ x ∷ xs))
  | inr behind ↦ rw behind (trans (swap refl refl) (cons refl (place-Permᴰ front r xs)))
]

sort-Permᴰ : (front : Bool) (rs : List Row) → Permᴰ rs (sort front rs)
unfolding sort
sort-Permᴰ front [] = Permᴰ.refl []
sort-Permᴰ front (r ∷ rs) =
    trans (cons refl (sort-Permᴰ front rs)) (place-Permᴰ front r (sort front rs))

weaken :
    (r x : Row) (xs : List Row)
    → x.timestamp ≤ r.timestamp
    → All (λ z. z.timestamp ≤ x.timestamp) xs
    → All (λ z. z.timestamp ≤ r.timestamp) xs
weaken r x [] h a = tt
weaken r x (z ∷ xs) h a = (omega (arith, a.0), weaken r x xs h a.1)

place-IsNewestFirst :
    (front : Bool) (r : Row) (xs : List Row) → IsNewestFirst xs → IsNewestFirst (place front r xs)
unfolding place
place-IsNewestFirst front r [] h = (tt, tt)
place-IsNewestFirst front r (x ∷ xs) h = elim (Bool-cases (goes_first front r x)) [
  | inl first ↦
      let le : x.timestamp ≤ r.timestamp = ground arith in rw first ((le, weaken r x xs le h.0), h)
  | inr behind ↦
      let le : r.timestamp ≤ x.timestamp = ground arith in
      rw behind (
        All-Permᴰ (λ z. z.timestamp ≤ x.timestamp) (place-Permᴰ front r xs) (le, h.0),
        place-IsNewestFirst front r xs h.1,
      )
]

sort-IsNewestFirst : (front : Bool) (rs : List Row) → IsNewestFirst (sort front rs)
unfolding sort
sort-IsNewestFirst front [] = tt
sort-IsNewestFirst front (r ∷ rs) =
    place-IsNewestFirst front r (sort front rs) (sort-IsNewestFirst front rs)

-- A table that chooses the order of ties by the offset.
abbrev pub memory : (ℕ → Bool) → Database
memory front = record {
  execute = λ st rows.
      take st.limit (drop st.offset (sort (front st.offset) (select (satisfies st.wheres) rows)));
}

pub memory-Executes : (front : ℕ → Bool) → Executes (memory front)
memory-Executes front st rows =
    let found = select (satisfies st.wheres) rows in
    let order = front st.offset in
    (sort order found, sort-Permᴰ order found, sort-IsNewestFirst order found, refl)
