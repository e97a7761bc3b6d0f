-- ===== src/Breaker/Invariant.antt =====
-- The states that a breaker can be in.
use mcp_gateway_python.Prelude.{ℕ, ◌≤◌, ◌<◌, ◌≡◌, none, is_some, true, List, [], ◌∷◌, String, arith}
use mcp_gateway_python.Breaker.{
  CircuitState, closed, opened, half_open, CircuitBreaker, init, before_call, on_success,
  on_failure,
}
use mcp_gateway_python.Breaker.Events.{Event, call, success, failure, step, run}

abbrev pub Fits : CircuitState → CircuitBreaker → Type 0
Fits closed c = (c.failures < c.failure_threshold) × (c.opened_at ≡ none)
Fits opened c = (c.failure_threshold ≤ c.failures) × (is_some c.opened_at ≡ true)
Fits half_open c =
    (c.failure_threshold ≤ c.failures)
    × (is_some c.opened_at ≡ true)
    × (c.probe_ok < c.probe_successes)

-- Thresholds are positive; a closed circuit has fewer failures than its threshold and no opening
-- time, an open one has that many and a time, and one that probes has probes left to pass.
pub record IsValid (c : CircuitBreaker) : Type 0 where
  pub threshold : 0 < c.failure_threshold
  pub probes : 0 < c.probe_successes
  pub fits : Fits c.state c

pub init-IsValid :
    (sid : String) (threshold timeout probes : ℕ)
    → 0 < threshold
    → 0 < probes
    → IsValid (init sid threshold timeout probes)
unfolding init
init-IsValid sid threshold timeout probes h k = ground arith

before_call-IsValid : (now : ℕ) (c : CircuitBreaker) → IsValid c → IsValid (before_call now c).1
unfolding before_call
before_call-IsValid now c v = ground arith

on_success-IsValid : (c : CircuitBreaker) → IsValid c → IsValid (on_success c)
unfolding on_success
on_success-IsValid c v = ground arith

on_failure-IsValid : (now : ℕ) (c : CircuitBreaker) → IsValid c → IsValid (on_failure now c)
unfolding on_failure
on_failure-IsValid now c v = ground arith

pub step-IsValid : (e : Event) (c : CircuitBreaker) → IsValid c → IsValid (step e c)
unfolding step
step-IsValid (call now) c v = before_call-IsValid now c v
step-IsValid success c v = on_success-IsValid c v
step-IsValid (failure now) c v = on_failure-IsValid now c v

-- Whatever happens to a breaker, in whatever order calls and outcomes interleave, it stays valid.
pub run-IsValid : (es : List Event) (c : CircuitBreaker) → IsValid c → IsValid (run es c)
unfolding run
run-IsValid [] c v = v
run-IsValid (e ∷ es) c v = run-IsValid es (step e c) (step-IsValid e c v)
