-- ===== src/Cache/History.antt =====
-- The store against the history of its operations: what a read returns is the last write of its
-- key, if that is still alive.
use mcp_gateway_python.Prelude.{
  ℕ, ◌+◌, ◌≤◌, String, Option, none, some, ◌≡◌, refl, List, [], ◌∷◌, ltb, leb, if◌then◌else◌,
  lookup, lookup-insert, lookup-erase, eq_iff, ◌==◌, arith, All, Option-cases, inl, inr,
}
use mcp_gateway_python.Cache.Store.{CacheEntry, TtlStore, empty, get, set, delete, clear}

pub data Op {ℓ} (V : Type ℓ) : Type ℓ where
  read : String → ℕ → Op V
  write : String → V → ℕ → ℕ → Op V
  remove : String → Op V
  wipe : Op V

-- An operation that does not read the clock after `now`.
abbrev pub Until {ℓ} : {V : Type ℓ} → ℕ → Op V → Type 0
Until now (read _ t) = t ≤ now
Until now (write _ _ _ t) = t ≤ now
Until now (remove _) = Unit {0}
Until now wipe = Unit {0}

module _ {ℓ} {V : Type ℓ} where
  unfoldable pub step : Op V → TtlStore V → TtlStore V
  step (read k t) s = (get k t s).1
  step (write k v ttl t) s = set k v ttl t s
  step (remove k) s = delete k s
  step wipe s = clear s

  -- The state after a history, its last operation first.
  unfoldable pub after : List (Op V) → TtlStore V
  after [] = empty
  after (op ∷ ops) = step op (after ops)

  -- The last write of a key that no removal follows; a lifetime of 0 writes nothing.
  unfoldable pub last_write : String → List (Op V) → Option (CacheEntry V)
  last_write k [] = none
  last_write k (read j t ∷ ops) = last_write k ops
  last_write k (write j v ttl t ∷ ops) =
      if leb ttl 0
      then last_write k ops
      else if j == k
      then some (record { value = v; expires_at = t + ttl })
      else last_write k ops
  last_write k (remove j ∷ ops) = if j == k then none else last_write k ops
  last_write k (wipe ∷ ops) = none

  -- The value of an entry at a time up to its expiry.
  abbrev pub alive : ℕ → Option (CacheEntry V) → Option V
  alive now none = none
  alive now (some e) = if ltb e.expires_at now then none else some e.value

  read-alive :
      (k j : String) (t now : ℕ) (s : TtlStore V)
      → t ≤ now
      → alive now (lookup k (get j t s).1.store) ≡ alive now (lookup k s.store)
  unfolding get
  read-alive k j t now s h = elim (Option-cases (lookup j s.store)) [
    | inl miss ↦ ground arith
    | inr (e, hit) ↦ ground (arith, lookup-erase j k s.store, eq_iff j k)
  ]

  after-alive :
      (k : String) (now : ℕ) (ops : List (Op V))
      → All (Until now) ops
      → alive now (lookup k (after ops).store) ≡ alive now (last_write k ops)
  unfolding after empty step set delete clear lookup last_write
  after-alive k now [] h = refl
  after-alive k now (read j t ∷ ops) h =
      ground (arith, read-alive k j t now (after ops) h.0, after-alive k now ops h.1)
  after-alive k now (write j v ttl t ∷ ops) h = ground (
    arith,
    lookup-insert j k (record { value = v; expires_at = t + ttl }) (after ops).store,
    after-alive k now ops h.1,
  )
  after-alive k now (remove j ∷ ops) h =
      ground (arith, lookup-erase j k (after ops).store, after-alive k now ops h.1)
  after-alive k now (wipe ∷ ops) h = refl

  -- After any history that is not later than the read, a read returns the value last written
  -- under its key if no removal followed and it has not expired, and nothing otherwise: what
  -- reads dropped on the way is never missed.
  pub get-after :
      (k : String) (now : ℕ) (ops : List (Op V))
      → All (Until now) ops
      → (get k now (after ops)).0 ≡ alive now (last_write k ops)
  unfolding get
  get-after k now ops h =
      ground (arith, after-alive k now ops h, Option-cases (lookup k (after ops).store))
