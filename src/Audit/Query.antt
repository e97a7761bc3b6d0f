-- ===== src/Audit/Query.antt =====
-- `AuditStore.query`. The statement that `query` builds is data; what the
-- database makes of it is a parameter.
use mcp_gateway_python.Audit.Store.{AuditEntry}
use mcp_gateway_python.Prelude.{
  ℕ, String, Option, none, some, List, [], ◌∷◌, ◌++◌, if◌then◌else◌, ◌==◌,
}

-- A row of the table, without its id.
pub record Row : Type 0 where
  pub timestamp : ℕ
  pub entry : AuditEntry

-- The columns that a query can ask for.
pub data Column : Type 0 where
  agent_id_column server_id_column tool_name_column status_column : Column

-- The values that `query` takes to filter by.
pub record Filters : Type 0 where
  pub agent_id : Option String
  pub server_id : Option String
  pub tool_name : Option String
  pub status : Option String

-- `select(AuditEntry).order_by(desc(AuditEntry.timestamp))` with its conditions, limit and offset.
pub record Statement : Type 0 where
  pub wheres : List (Column × String)
  pub limit : ℕ
  pub offset : ℕ

-- `if value: stmt = stmt.where(column == value)`
unfoldable pub where_equal :
    Column → Option String → List (Column × String) → List (Column × String)
where_equal c none ws = ws
where_equal c (some v) ws = if v == "" then ws else ws ++ (c, v) ∷ []

unfoldable pub statement : Filters → ℕ → ℕ → Statement
unfolding where_equal
statement f limit offset = record {
  wheres = where_equal status_column f.status (
      where_equal tool_name_column f.tool_name
        (where_equal server_id_column f.server_id (where_equal agent_id_column f.agent_id [])));
  limit = limit;
  offset = offset;
}

-- `session.execute`: the rows that a statement gives on a table.
pub record Database : Type 0 where
  pub execute : Statement → List Row → List Row

-- `query`
unfoldable pub query : Database → Filters → ℕ → ℕ → List Row → List Row
unfolding statement
query db f limit offset rows = db.execute (statement f limit offset) rows
