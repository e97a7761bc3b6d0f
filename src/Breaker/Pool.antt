-- ===== src/Breaker/Pool.antt =====
-- `CircuitBreakerRegistry` of app/transport/circuit_breaker.py: a breaker for each server id.
-- A client holds a reference to its breaker; here it names the breaker by the server id, and
-- `update` is a method call through the reference.
use mcp_gateway_python.Prelude.{
  ℕ, String, ◌≡◌, Bool, none, some, Dict, lookup, insert, lookup-insert, arith, ◌==◌, eq_iff,
  if◌then◌else◌, Option-cases, inl, inr,
}
use mcp_gateway_python.Breaker.{CircuitBreaker, init}

pub record CircuitBreakerRegistry : Type 0 where
  pub enabled : Bool
  pub failure_threshold : ℕ
  pub recovery_timeout : ℕ
  pub probe_successes : ℕ
  pub breakers : Dict CircuitBreaker

-- The breaker that `get` returns.
unfoldable pub breaker : String → CircuitBreakerRegistry → CircuitBreaker
breaker sid r = elim (lookup sid r.breakers) [
  | none ↦ init sid r.failure_threshold r.recovery_timeout r.probe_successes
  | some c ↦ c
]

-- `get`: the breaker of a server, created on first use.
unfoldable pub get : String → CircuitBreakerRegistry → CircuitBreaker × CircuitBreakerRegistry
unfolding breaker
get sid r = elim (lookup sid r.breakers) [
  | none ↦ (breaker sid r, record r { breakers = insert sid (breaker sid r) r.breakers })
  | some c ↦ (c, r)
]

unfoldable pub update :
    String → (CircuitBreaker → CircuitBreaker) → CircuitBreakerRegistry → CircuitBreakerRegistry
unfolding get
update sid f r = let (c, r') = get sid r in record r' { breakers = insert sid (f c) r'.breakers }

-- `get` gives every server one breaker of its own: a later `get` for any server returns what it
-- would have returned before, and after a method call through the reference the same server's
-- `get` sees its effect and every other server's is unchanged.
pub get-update :
    (sid other : String) (f : CircuitBreaker → CircuitBreaker) (r : CircuitBreakerRegistry)
    → ((get other (get sid r).1).0 ≡ (get other r).0)
      × ((get other (update sid f r)).0
          ≡ (if sid == other then f (get sid r).0 else (get other r).0))
unfolding update
get-update sid other f r = elim (Option-cases (lookup sid r.breakers)) [
  | inl new ↦ ground (
    arith,
    lookup-insert sid other (breaker sid r) r.breakers,
    lookup-insert sid other (f (breaker sid r)) (insert sid (breaker sid r) r.breakers),
    eq_iff sid other,
  )
  | inr (c, old) ↦ ground (arith, lookup-insert sid other (f c) r.breakers, eq_iff sid other)
]
