-- ===== src/Audit/Store.antt =====
-- `AuditStore`: `record`, `_flush` and `stop`. The database is a list of the rows that it holds, in
-- the order of their insertion; whether a commit succeeds is an argument.
use Prim.Native.Nat.{zero}
use mcp_gateway_python.Prelude.{
  ℕ, if◌then◌else◌, String, Bool, [], List, ◌∷◌, ltb, ◌++◌, suc, Option, length, true, false,
}

-- An `AuditEntry`; the digest of the arguments is that of `_hash_args`.
pub record AuditEntry : Type 0 where
  pub request_id : String
  pub agent_id : String
  pub server_id : String
  pub tool_name : String
  pub qualified_name : String
  pub mutable_tool : Bool
  pub status : String
  pub is_error : Bool
  pub error_detail : Option String
  pub latency_ms : ℕ
  pub guardrail_blocked : Bool
  pub auth_denied : Bool
  pub rate_limited : Bool
  pub redacted : Bool
  pub arguments_hash : String

pub record AuditStore : Type 0 where
  pub queue : List AuditEntry
  pub rows : List AuditEntry

abbrev pub max_size : ℕ
max_size = 10000

abbrev pub batch_size : ℕ
batch_size = 50

abbrev pub empty : AuditStore
empty = record { queue = []; rows = [] }

-- `record`: `put_nowait`, which a full queue refuses.
unfoldable pub enqueue : AuditEntry → AuditStore → AuditStore
enqueue e s = if ltb (length s.queue) max_size then record s { queue = s.queue ++ e ∷ [] } else s

commit : Bool → List AuditEntry → List AuditEntry → List AuditEntry
commit true batch rows = rows ++ batch
commit false batch rows = rows

-- The loop that fills a batch from the queue, with `n` places left.
unfoldable pub fill : ℕ → List AuditEntry → List AuditEntry → List AuditEntry × List AuditEntry
fill zero batch queue = (batch, queue)
fill (suc n) batch [] = (batch, [])
fill (suc n) batch (e ∷ queue) = fill n (batch ++ e ∷ []) queue

-- `_flush`; an empty batch commits nothing.
unfoldable pub flush : Bool → AuditStore → AuditStore
unfolding fill commit
flush committed s =
    let (batch, rest) = fill batch_size [] s.queue in
    record { queue = rest; rows = commit committed batch s.rows }

-- `stop`, after the consumer is cancelled: one flush.
unfoldable pub stop : Bool → AuditStore → AuditStore
unfolding flush
stop committed s = flush committed s

pub data Op : Type 0 where
  entry : AuditEntry → Op
  tick : Bool → Op

unfoldable pub step : Op → AuditStore → AuditStore
step (entry e) s = enqueue e s
step (tick committed) s = flush committed s

unfoldable pub run : List Op → AuditStore → AuditStore
run [] s = s
run (op ∷ ops) s = run ops (step op s)
