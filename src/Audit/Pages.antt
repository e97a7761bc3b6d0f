-- ===== src/Audit/Pages.antt =====
-- What the audit log answers, on a database that does what SQL says.
use mcp_gateway_python.Audit.Sorting.{
  IsNewestFirst, AreApart, IsNewestFirst-unique, All-Permᴰ, length-Permᴰ,
}
use mcp_gateway_python.Audit.Store.{AuditEntry}
use mcp_gateway_python.Audit.Query.{
  statement, Database, Column, Row, Filters, where_equal, Statement, agent_id_column, query,
  server_id_column, tool_name_column, status_column,
}
use mathlib.Core.List.{Permᴰ}
use mathlib.Core.Path.{subst, ap, sym}
use Prim.Native.Nat.{zero, ℕ}
use mcp_gateway_python.Prelude.{
  length, List, [], ◌∷◌, ◌≤◌, drop_add, take_add, take_all, take, drop, refl, All, suc, none, some,
  true, Option, String, Bool, ◌==◌, ◌&&◌, ◌≡◌, select, ◌||◌, arith, ◌++◌, ◌+◌, In, inl, ◌*◌,
  select-In, inr, length-take-le, ◌∙◌,
}

-- The value that is asked for, if one is.
abbrev asked : Option String → String → Bool
asked none v = true
asked (some x) v = x == "" || v == x

-- The rows that filters ask for.
abbrev pub matches : Filters → Row → Bool
matches f r =
    asked f.agent_id r.entry.agent_id
    && asked f.server_id r.entry.server_id
    && asked f.tool_name r.entry.tool_name
    && asked f.status r.entry.status

abbrev pub value_of : Column → AuditEntry → String
value_of agent_id_column e = e.agent_id
value_of server_id_column e = e.server_id
value_of tool_name_column e = e.tool_name
value_of status_column e = e.status

-- The conditions of a statement.
abbrev pub satisfies : List (Column × String) → Row → Bool
satisfies [] r = true
satisfies ((c, v) ∷ ws) r = value_of c r.entry == v && satisfies ws r

-- A select gives the rows that meet the conditions, in an order that has the newest first, from the
-- offset on and no more than the limit. Rows of one timestamp may come in any order, and in another
-- one at the next select.
abbrev pub Executes : Database → Type 0
Executes db =
    (st : Statement) (rows : List Row)
    → (sorted : List Row) × Permᴰ (select (satisfies st.wheres) rows) sorted
      × IsNewestFirst sorted
      × (db.execute st rows ≡ take st.limit (drop st.offset sorted))

satisfies-statement :
    (f : Filters) (limit offset : ℕ) (r : Row)
    → satisfies (statement f limit offset).wheres r ≡ matches f r
unfolding statement where_equal
satisfies-statement f limit offset r = ground arith

select-same :
    (p q : Row → Bool) (rows : List Row) → ((r : Row) → p r ≡ q r) → select p rows ≡ select q rows
select-same p q [] h = refl
select-same p q (r ∷ rows) h = let rest = select-same p q rows h in ground (arith, h r)

All-from : {P : Row → Type 0} (xs : List Row) → ((r : Row) → In r xs → P r) → All P xs
All-from [] h = tt
All-from (x ∷ xs) h = (h x (inl refl), All-from xs (λ r i. h r (inr i)))

All-take : (P : Row → Type 0) (n : ℕ) (xs : List Row) → All P xs → All P (take n xs)
All-take P zero xs h = tt
All-take P (suc n) [] h = tt
All-take P (suc n) (x ∷ xs) h = (h.0, All-take P n xs h.1)

All-drop : (P : Row → Type 0) (n : ℕ) (xs : List Row) → All P xs → All P (drop n xs)
All-drop P zero xs h = h
All-drop P (suc n) [] h = tt
All-drop P (suc n) (x ∷ xs) h = All-drop P n xs h.1

IsNewestFirst-take : (n : ℕ) (xs : List Row) → IsNewestFirst xs → IsNewestFirst (take n xs)
IsNewestFirst-take zero xs h = tt
IsNewestFirst-take (suc n) [] h = tt
IsNewestFirst-take (suc n) (x ∷ xs) h =
    (All-take (λ r. r.timestamp ≤ x.timestamp) n xs h.0, IsNewestFirst-take n xs h.1)

IsNewestFirst-drop : (n : ℕ) (xs : List Row) → IsNewestFirst xs → IsNewestFirst (drop n xs)
IsNewestFirst-drop zero xs h = h
IsNewestFirst-drop (suc n) [] h = tt
IsNewestFirst-drop (suc n) (x ∷ xs) h = IsNewestFirst-drop n xs h.1

-- The row is in the table, and is one that is asked for.
abbrev pub IsAsked : Filters → List Row → Row → Type 0
IsAsked f rows r = In r rows × (matches f r ≡ true)

-- The pages of one size, from an offset on.
abbrev pub pages : Database → Filters → List Row → ℕ → ℕ → ℕ → List Row
pages db f rows size zero offset = []
pages db f rows size (suc n) offset =
    query db f size offset rows ++ pages db f rows size n (offset + size)

module _ (db : Database) (sql : Executes db) (f : Filters) (rows : List Row) where
  -- A query cuts an ordering of the matching rows.
  query-cut :
      (limit offset : ℕ)
      → (sorted : List Row) × Permᴰ (select (matches f) rows) sorted
        × IsNewestFirst sorted
        × (query db f limit offset rows ≡ take limit (drop offset sorted))
  unfolding query
  query-cut limit offset =
      let st = statement f limit offset in
      let (sorted, same, newest, cut) = sql st rows in
      (
        sorted,
        subst (λ l. Permᴰ l sorted)
            (select-same (satisfies st.wheres) (matches f) rows
              (satisfies-statement f limit offset))
            same,
        newest,
        cut,
      )

  pub query_lem :
      (limit offset : ℕ)
      → All (IsAsked f rows) (query db f limit offset rows)
        × (length (query db f limit offset rows) ≤ limit)
        × IsNewestFirst (query db f limit offset rows)
  query_lem limit offset =
      let (sorted, same, newest, cut) = query-cut limit offset in
      let found = All-from (select (matches f) rows) (λ r i. select-In (matches f) r rows i) in
      rw cut (
        All-take (IsAsked f rows) limit (drop offset sorted)
            (All-drop (IsAsked f rows) offset sorted (All-Permᴰ (IsAsked f rows) same found)),
        length-take-le limit (drop offset sorted),
        IsNewestFirst-take limit (drop offset sorted) (IsNewestFirst-drop offset sorted newest),
      )

  pages-cut :
      (sorted : List Row)
      → AreApart (select (matches f) rows)
      → Permᴰ (select (matches f) rows) sorted
      → IsNewestFirst sorted
      → (size n offset : ℕ) → pages db f rows size n offset ≡ take (n * size) (drop offset sorted)
  pages-cut sorted apart same newest size zero offset =
      let e : 0 ≡ 0 * size = omega arith in ap (λ n. take n (drop offset sorted)) e
  pages-cut sorted apart same newest size (suc n) offset =
      let (order, same', newest', cut) = query-cut size offset in
      let one =
        IsNewestFirst-unique (select (matches f) rows) order sorted apart same' same newest'
          newest in
      let rest = pages-cut sorted apart same newest size n (offset + size) in
      let e : size + n * size ≡ suc n * size = omega arith in
      ap (λ l. l ++ pages db f rows size n (offset + size))
        (cut ∙ ap (λ l. take size (drop offset l)) one)
      ∙ (ap (λ l. take size (drop offset sorted) ++ l)
            (rest ∙ ap (λ l. take (n * size) l) (sym (drop_add offset size sorted)))
          ∙ (take_add size (n * size) (drop offset sorted)
              ∙ ap (λ k. take k (drop offset sorted)) e))

  -- On a database that does what SQL says: if no two of the matching rows have the same timestamp,
  -- enough pages of one size hold each matching row exactly once, with the newest first: none is
  -- missed or given twice between pages.
  pub pages-Permᴰ :
      (size n : ℕ)
      → AreApart (select (matches f) rows)
      → length (select (matches f) rows) ≤ n * size
      → Permᴰ (select (matches f) rows) (pages db f rows size n 0)
        × IsNewestFirst (pages db f rows size n 0)
  pages-Permᴰ size n apart enough =
      let (sorted, same, newest, cut) = query-cut size 0 in
      let whole : pages db f rows size n 0 ≡ sorted =
        pages-cut sorted apart same newest size n 0
        ∙ take_all (n * size) sorted (omega (arith, length-Permᴰ same)) in
      (subst (Permᴰ (select (matches f) rows)) (sym whole) same, rw whole newest)
