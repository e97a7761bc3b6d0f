-- ===== src/Audit/Order.antt =====
-- What reaches the database, and in which order.
use Prim.Native.Nat.{zero}
use mcp_gateway_python.Prelude.{
  Bool, ◌<◌, List, true, length, ℕ, ◌≡◌, ◌≤◌, ◌++◌, [], ◌+◌, drop, take, ◌∷◌, append-nil,
  if◌then◌else◌, ◌≢◌, suc, arith, append_assoc, false, ap, length-append, sym, ◌∙◌, length-drop,
  take-append-drop,
}
use mcp_gateway_python.Audit.Store.{
  AuditEntry, AuditStore, max_size, batch_size, enqueue, fill, flush, stop, Op, entry, tick, step,
  run,
}

fill_lem :
    (n : ℕ) (batch queue : List AuditEntry)
    → fill n batch queue ≡ (batch ++ take n queue, drop n queue)
unfolding fill
fill_lem zero batch queue = simp append-nil
fill_lem (suc n) batch [] = simp append-nil
fill_lem (suc n) batch (e ∷ queue) = simp (fill_lem n (batch ++ e ∷ []) queue, append_assoc)

-- A flush moves the first entries of the queue, at most a batch, to the end of the table if the
-- commit succeeds, and loses them if it fails.
pub flush_lem :
    (committed : Bool) (s : AuditStore)
    → ((flush committed s).queue ≡ drop batch_size s.queue)
      × ((flush committed s).rows
          ≡ (if committed then s.rows ++ take batch_size s.queue else s.rows))
unfolding flush
flush_lem true s = ground (arith, fill_lem batch_size [] s.queue)
flush_lem false s = ground (arith, fill_lem batch_size [] s.queue)

-- `stop` flushes once, so that with more than a batch queued the entries behind it are not stored.
pub stop-loses :
    (s : AuditStore)
    → batch_size < length s.queue
    → ((stop true s).rows ≡ s.rows ++ take batch_size s.queue)
      × ((stop true s).queue ≡ drop batch_size s.queue)
      × ((stop true s).queue ≢ [])
unfolding stop
stop-loses s h =
    let (queued, stored) = flush_lem true s in
    (
      stored,
      queued,
      λ e. absurd (omega (arith, ap length (sym queued ∙ e), length-drop batch_size s.queue)),
    )

-- The entries that are recorded, in order.
abbrev pub recorded : List Op → List AuditEntry
recorded [] = []
recorded (entry e ∷ ops) = e ∷ recorded ops
recorded (tick _ ∷ ops) = recorded ops

-- Every commit of a sequence succeeds.
abbrev pub AllCommit : List Op → Type 0
AllCommit [] = Unit {0}
AllCommit (entry _ ∷ ops) = AllCommit ops
AllCommit (tick committed ∷ ops) = (committed ≡ true) × AllCommit ops

-- The entries that are stored or wait, in order.
abbrev pub log : AuditStore → List AuditEntry
log s = s.rows ++ s.queue

enqueue_lem :
    (e : AuditEntry) (s : AuditStore)
    → length s.queue < max_size
    → (log (enqueue e s) ≡ log s ++ e ∷ []) × (length (enqueue e s).queue ≡ length s.queue + 1)
unfolding enqueue
enqueue_lem e s h =
    ground (arith, append_assoc s.rows s.queue (e ∷ []), length-append s.queue (e ∷ []))

flush-log :
    (s : AuditStore) → (log (flush true s) ≡ log s) × (length (flush true s).queue ≤ length s.queue)
flush-log s =
    let (queued, stored) = flush_lem true s in
    (
      rw (queued, stored)
          (append_assoc s.rows (take batch_size s.queue) (drop batch_size s.queue)
            ∙ ap (λ q. s.rows ++ q) (take-append-drop batch_size s.queue)),
      omega (arith, ap length queued, length-drop batch_size s.queue),
    )

-- As long as no commit fails and no more is recorded than the queue has room for, nothing is lost,
-- stored twice or reordered, however records and flushes interleave: the table and then the queue
-- hold what they held, followed by what was recorded.
pub log-run :
    (ops : List Op) (s : AuditStore)
    → AllCommit ops
    → length s.queue + length (recorded ops) ≤ max_size
    → log (run ops s) ≡ log s ++ recorded ops
unfolding run step
log-run [] s c h = rw append-nil
log-run (entry e ∷ ops) s c h =
    let (kept, longer) = enqueue_lem e s (omega arith) in
    log-run ops (enqueue e s) c (omega arith)
    ∙ ap (λ l. l ++ recorded ops) kept
    ∙ append_assoc (log s) (e ∷ []) (recorded ops)
log-run (tick true ∷ ops) s c h =
    let (kept, shorter) = flush-log s in
    log-run ops (flush true s) c.1 (omega arith) ∙ ap (λ l. l ++ recorded ops) kept
log-run (tick false ∷ ops) s c h = cc

rows-step :
    (op : Op) (s : AuditStore)
    → length s.queue ≤ max_size
    → (length (step op s).queue ≤ max_size)
      × ((more : List AuditEntry) × ((step op s).rows ≡ s.rows ++ more))
unfolding step enqueue
rows-step (entry e) s h =
    (ground (arith, length-append s.queue (e ∷ [])), ([], ground (arith, append-nil s.rows)))
rows-step (tick true) s h =
    let (queued, stored) = flush_lem true s in
    (
      omega (arith, ap length queued, length-drop batch_size s.queue),
      (take batch_size s.queue, stored),
    )
rows-step (tick false) s h =
    let (queued, stored) = flush_lem false s in
    (
      omega (arith, ap length queued, length-drop batch_size s.queue),
      ([], stored ∙ sym (append-nil s.rows)),
    )

-- The table only grows at its end, and the queue never holds more than its bound, also where
-- commits fail and entries are dropped.
pub rows-run :
    (ops : List Op) (s : AuditStore)
    → length s.queue ≤ max_size
    → (length (run ops s).queue ≤ max_size)
      × ((more : List AuditEntry) × ((run ops s).rows ≡ s.rows ++ more))
unfolding run
rows-run [] s h = (h, ([], sym (append-nil s.rows)))
rows-run (op ∷ ops) s h =
    let (bound, (new, grown)) = rows-step op s h in
    let (final, (more, rows)) = rows-run ops (step op s) bound in
    (final, (new ++ more, rows ∙ ap (λ r. r ++ more) grown ∙ append_assoc s.rows new more))
