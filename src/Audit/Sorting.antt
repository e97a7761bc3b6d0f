-- ===== src/Audit/Sorting.antt =====
-- Rows in the order of their timestamps, the newest first.
use mcp_gateway_python.Audit.Query.{Row}
use mcp_gateway_python.Prelude.{
  refl, All, suc, length, ap, List, [], ◌∷◌, eqb, ◌≤◌, ◌≡◌, In, arith, ◌<◌, false, ◌∙◌, inl, inr,
  All-In,
}
use mathlib.Core.List.{Permᴰ}
use mathlib.Core.List.Permᴰ.{nil, cons, swap, trans}
use mathlib.Core.Path.{subst, sym}
use mathlib.Core.List.Permᴰ

-- No row is older than one behind it.
abbrev pub IsNewestFirst : List Row → Type 0
IsNewestFirst [] = Unit {0}
IsNewestFirst (r ∷ rs) = All (λ x. x.timestamp ≤ r.timestamp) rs × IsNewestFirst rs

-- No two rows have the same timestamp.
abbrev pub AreApart : List Row → Type 0
AreApart [] = Unit {0}
AreApart (r ∷ rs) = All (λ x. eqb x.timestamp r.timestamp ≡ false) rs × AreApart rs

-- Each row is older than those before it.
abbrev IsStrict : List Row → Type 0
IsStrict [] = Unit {0}
IsStrict (r ∷ rs) = All (λ x. x.timestamp < r.timestamp) rs × IsStrict rs

pub length-Permᴰ : {xs ys : List Row} → Permᴰ xs ys → length xs ≡ length ys
length-Permᴰ nil = refl
length-Permᴰ (cons e p) = ap suc (length-Permᴰ p)
length-Permᴰ (swap e f) = refl
length-Permᴰ (trans p q) = length-Permᴰ p ∙ length-Permᴰ q

pub All-Permᴰ : (P : Row → Type 0) {xs ys : List Row} → Permᴰ xs ys → All P xs → All P ys
All-Permᴰ P nil h = tt
All-Permᴰ P (cons e p) h = (subst P e h.0, All-Permᴰ P p h.1)
All-Permᴰ P (swap e f) h = (subst P f h.1.0, (subst P e h.0, h.1.1))
All-Permᴰ P (trans p q) h = All-Permᴰ P q (All-Permᴰ P p h)

AreApart-swap : (a b : Row) (rs : List Row) → AreApart (a ∷ b ∷ rs) → AreApart (b ∷ a ∷ rs)
AreApart-swap a b rs h = ((ground (arith, h.0.0), h.1.0), (h.0.1, h.1.1))

AreApart-Permᴰ : {xs ys : List Row} → Permᴰ xs ys → AreApart xs → AreApart ys
AreApart-Permᴰ nil h = tt
AreApart-Permᴰ (cons {b = b} {l₁ = rest} e p) h = (
  All-Permᴰ (λ x. eqb x.timestamp b.timestamp ≡ false) p
      (subst (λ r. All (λ x. eqb x.timestamp r.timestamp ≡ false) rest) e h.0),
  AreApart-Permᴰ p h.1,
)
AreApart-Permᴰ (swap {a = a} {b = b} {a' = x} {l = rs} e f) h =
    subst (λ z. AreApart (x ∷ z ∷ rs)) e
      (subst (λ z. AreApart (z ∷ a ∷ rs)) f (AreApart-swap a b rs h))
AreApart-Permᴰ (trans p q) h = AreApart-Permᴰ q (AreApart-Permᴰ p h)

older :
    (r : Row) (rs : List Row)
    → All (λ x. x.timestamp ≤ r.timestamp) rs
    → All (λ x. eqb x.timestamp r.timestamp ≡ false) rs
    → All (λ x. x.timestamp < r.timestamp) rs
older r [] n a = tt
older r (x ∷ rs) n a = (ground (arith, n.0, a.0), older r rs n.1 a.1)

IsStrict-from : (rs : List Row) → IsNewestFirst rs → AreApart rs → IsStrict rs
IsStrict-from [] n a = tt
IsStrict-from (r ∷ rs) n a = (older r rs n.0 a.0, IsStrict-from rs n.1 a.1)

In-Permᴰ : (r : Row) {xs ys : List Row} → Permᴰ xs ys → In r xs → In r ys
In-Permᴰ r nil i = i
In-Permᴰ r (cons e p) (inl same) = inl (sym e ∙ same)
In-Permᴰ r (cons e p) (inr i) = inr (In-Permᴰ r p i)
In-Permᴰ r (swap e f) (inl same) = inr (inl (sym e ∙ same))
In-Permᴰ r (swap e f) (inr (inl same)) = inl (sym f ∙ same)
In-Permᴰ r (swap e f) (inr (inr i)) = inr (inr i)
In-Permᴰ r (trans p q) i = In-Permᴰ r q (In-Permᴰ r p i)

-- The first rows of two strict orders of the same rows are one.
IsStrict-head :
    (x y : Row) (xs ys : List Row)
    → IsStrict (x ∷ xs)
    → IsStrict (y ∷ ys)
    → In x (y ∷ ys)
    → In y (x ∷ xs)
    → y ≡ x
IsStrict-head x y xs ys a b (inl same) j = same
IsStrict-head x y xs ys a b (inr i) (inl same) = sym same
IsStrict-head x y xs ys a b (inr i) (inr j) =
    let down = All-In (λ r. r.timestamp < y.timestamp) x ys b.0 i in
    let up = All-In (λ r. r.timestamp < x.timestamp) y xs a.0 j in absurd (omega arith)

-- What stands in one tail stands in the other.
In-tail :
    (x y r : Row) (xs ys : List Row) → IsStrict (x ∷ xs) → y ≡ x → In r xs → In r (y ∷ ys) → In r ys
In-tail x y r xs ys a e i (inr j) = j
In-tail x y r xs ys a e i (inl same) =
    let down = All-In (λ z. z.timestamp < x.timestamp) r xs a.0 i in
    let level : r.timestamp ≡ x.timestamp = ap (λ z. z.timestamp) (sym same ∙ e) in
    absurd (omega arith)

IsStrict-unique :
    (xs ys : List Row)
    → IsStrict xs
    → IsStrict ys
    → ((r : Row) → In r xs → In r ys)
    → ((r : Row) → In r ys → In r xs)
    → xs ≡ ys
IsStrict-unique [] [] a b f g = refl
IsStrict-unique [] (y ∷ ys) a b f g = absurd (g y (inl refl))
IsStrict-unique (x ∷ xs) [] a b f g = absurd (f x (inl refl))
IsStrict-unique (x ∷ xs) (y ∷ ys) a b f g =
    let same = IsStrict-head x y xs ys a b (f x (inl refl)) (g y (inl refl)) in
    let rest =
      IsStrict-unique xs ys a.1 b.1 (λ r i. In-tail x y r xs ys a same i (f r (inr i)))
        (λ r i. In-tail y x r ys xs b (sym same) i (g r (inr i))) in
    cc (same, rest)

-- Rows with distinct timestamps have one order with the newest first.
pub IsNewestFirst-unique :
    (rs xs ys : List Row)
    → AreApart rs
    → Permᴰ rs xs
    → Permᴰ rs ys
    → IsNewestFirst xs
    → IsNewestFirst ys
    → xs ≡ ys
IsNewestFirst-unique rs xs ys a p q m n =
    IsStrict-unique xs ys (IsStrict-from xs m (AreApart-Permᴰ p a))
      (IsStrict-from ys n (AreApart-Permᴰ q a)) (λ r i. In-Permᴰ r (trans (Permᴰ.symm p) q) i)
      (λ r i. In-Permᴰ r (trans (Permᴰ.symm q) p) i)
