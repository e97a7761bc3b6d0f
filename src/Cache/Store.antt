-- ===== src/Cache/Store.antt =====
-- `TtlStore`: an entry is dropped by the first read after its expiry.
use mcp_gateway_python.Prelude.{
  ℕ, ◌+◌, String, Option, none, some, ltb, leb, if◌then◌else◌, Dict, lookup, insert, erase, length,
  [],
}

pub record CacheEntry {ℓ} (V : Type ℓ) : Type ℓ where
  pub value : V
  pub expires_at : ℕ

pub record TtlStore {ℓ} (V : Type ℓ) : Type ℓ where
  pub store : Dict (CacheEntry V)

module _ {ℓ} {V : Type ℓ} where
  unfoldable pub empty : TtlStore V
  empty = record { store = [] }

  found : String → ℕ → Option (CacheEntry V) → TtlStore V → Option V × TtlStore V
  found key now none s = (none, s)
  found key now (some entry) s =
      if ltb entry.expires_at now
      then (none, record { store = erase key s.store })
      else (some entry.value, s)

  -- `get`
  unfoldable pub get : String → ℕ → TtlStore V → Option V × TtlStore V
  unfolding found
  get key now s = found key now (lookup key s.store) s

  -- `set`
  unfoldable pub set : String → V → ℕ → ℕ → TtlStore V → TtlStore V
  set key value ttl now s =
      if leb ttl 0
      then s
      else record { store = insert key (record { value = value; expires_at = now + ttl }) s.store }

  -- `delete`
  unfoldable pub delete : String → TtlStore V → TtlStore V
  delete key s = record { store = erase key s.store }

  -- `clear`
  unfoldable pub clear : TtlStore V → TtlStore V
  clear s = record { store = [] }

  -- `size`
  unfoldable pub size : TtlStore V → ℕ
  size s = length s.store
