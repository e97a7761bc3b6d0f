-- ===== src/Api/AuditLog.antt =====
-- The route `/v1/audit`.
mod Tests
use mcp_gateway_python.Audit.Sorting.{IsNewestFirst}
use mcp_gateway_python.Audit.Pages.{Executes, matches, query_lem}
use mathlib.Core.Path.{subst}
use mcp_gateway_python.Prelude.{
  inl, inr, leb→le, refl, ◌≤◌, length, In, ℕ, List, if◌then◌else◌, leb, ◌&&◌, ◌≡◌, All, true, arith,
  Bool-cases,
}
use mcp_gateway_python.Prelude.Int.{ℤ, pos, negsuc, pos_part}
use mcp_gateway_python.Audit.Query.{Row, Filters, Database, query}
use mcp_gateway_python.Api.Http.{Response, done, http_exception}

-- The answer of `/v1/audit`: the rows and their number.
pub record AuditPage : Type 0 where
  pub entries : List Row
  pub count : ℕ

-- The route `query_audit` behind the API key: 1 ≤ limit ≤ 500 and 0 ≤ offset, or the framework answers with 422.
unfoldable pub query_audit : Database → Filters → ℤ → ℤ → List Row → Response AuditPage
unfolding query
query_audit db f (negsuc l) offset rows = http_exception 422 "limit"
query_audit db f (pos l) (negsuc o) rows = http_exception 422 "offset"
query_audit db f (pos l) (pos o) rows =
    if leb 1 l && leb l 500
    then (let found = query db f l o rows in
        done (record { entries = found; count = length found }))
    else http_exception 422 "limit"

-- On a database that does what SQL says: an answer tells the number of its rows, which are no more
-- than 500 and no more than was asked for, are in the table and match every filter that is not
-- empty, and come with the newest first.
pub query_audit_sound :
    (db : Database) (f : Filters) (limit offset : ℤ) (rows : List Row) (page : AuditPage)
    → Executes db
    → query_audit db f limit offset rows ≡ done page
    → (page.count ≡ length page.entries)
      × (page.count ≤ 500)
      × (page.count ≤ pos_part limit)
      × All (λ r. In r rows × (matches f r ≡ true)) page.entries
      × IsNewestFirst page.entries
unfolding query_audit
query_audit_sound db f (negsuc l) offset rows page sql h = ground arith
query_audit_sound db f (pos l) (negsuc o) rows page sql h = ground arith
query_audit_sound db f (pos l) (pos o) rows page sql h = elim (Bool-cases (leb 1 l && leb l 500)) [
  | inr out ↦ ground arith
  | inl within ↦
      let found = query db f l o rows in
      let (asked, few, newest) = query_lem db sql f rows l o in
      let at : record { entries = found; count = length found } ≡ page = ground arith in
      let bound : length found ≤ 500 = ground (arith, leb→le l 500) in
      subst
        (λ (p : AuditPage).
          (p.count ≡ length p.entries)
          × (p.count ≤ 500)
          × (p.count ≤ l)
          × All (λ r. In r rows × (matches f r ≡ true)) p.entries
          × IsNewestFirst p.entries)
        at (refl, bound, few, asked, newest)
]
