-- ===== src/Breaker.antt =====
-- app/transport/circuit_breaker.py: one circuit breaker for each upstream server.
-- Times are natural numbers of milliseconds of the monotonic clock; each operation takes the time
-- at which it reads the clock. The constructors of `CircuitState` are CLOSED, OPEN and HALF_OPEN;
-- OPEN is `opened` here.
pub mod Events
pub mod Invariant
pub mod Trip
pub mod Recovery
pub mod Pool
mod Tests
use mcp_gateway_python.Prelude.{
  ℕ, ◌+◌, ◌-◌, ◌*◌, ◌/◌, ◌%◌, String, Bool, true, false, Option, none, some, ltb, leb, eqb, get_or,
  if◌then◌else◌, Result, ok, err,
}

pub data CircuitState : Type 0 where
  closed opened half_open : CircuitState

pub record CircuitOpenError : Type 0 where
  pub server_id : String
  pub retry_after : ℕ

pub record CircuitBreaker : Type 0 where
  pub server_id : String
  pub failure_threshold : ℕ
  pub recovery_timeout : ℕ
  pub probe_successes : ℕ
  pub state : CircuitState
  pub failures : ℕ
  pub probe_ok : ℕ
  pub opened_at : Option ℕ

-- `CircuitBreaker.__init__`
unfoldable pub init : String → ℕ → ℕ → ℕ → CircuitBreaker
init sid threshold timeout probes = record {
  server_id = sid;
  failure_threshold = threshold;
  recovery_timeout = timeout;
  probe_successes = probes;
  state = closed;
  failures = 0;
  probe_ok = 0;
  opened_at = none;
}

-- `round(remaining, 1)` of seconds, on milliseconds: to the nearest 100, ties to the even one.
pub round_tenth : ℕ → ℕ
round_tenth x =
    let q = x / 100 in
    let r = x % 100 in
    if ltb r 50
    then q * 100
    else if ltb 50 r
    then (q + 1) * 100
    else if eqb (q % 2) 0
    then q * 100
    else (q + 1) * 100

-- The time at which an open circuit admits a probe: `remaining > 0` holds before it.
unfoldable pub probe_at : CircuitBreaker → ℕ
probe_at c = c.recovery_timeout + get_or c.opened_at 0

before_call_in :
    CircuitState → ℕ → CircuitBreaker → Result CircuitOpenError (Unit {0}) × CircuitBreaker
unfolding round_tenth probe_at
before_call_in opened now c =
    if ltb now (probe_at c)
    then (err (record { server_id = c.server_id; retry_after = round_tenth (probe_at c - now) }), c)
    else (ok tt, record c { state = half_open; probe_ok = 0 })
before_call_in closed now c = (ok tt, c)
before_call_in half_open now c = (ok tt, c)

-- `before_call`
unfoldable pub before_call :
    ℕ → CircuitBreaker → Result CircuitOpenError (Unit {0}) × CircuitBreaker
unfolding before_call_in
before_call now c = before_call_in c.state now c

on_success_in : CircuitState → CircuitBreaker → CircuitBreaker
on_success_in half_open c =
    let p = c.probe_ok + 1 in
    if leb c.probe_successes p
    then record c { probe_ok = p; state = closed; failures = 0; opened_at = none }
    else record c { probe_ok = p }
on_success_in closed c = record c { failures = 0 }
on_success_in opened c = c

-- `on_success`
unfoldable pub on_success : CircuitBreaker → CircuitBreaker
unfolding on_success_in
on_success c = on_success_in c.state c

on_failure_in : CircuitState → ℕ → CircuitBreaker → CircuitBreaker
on_failure_in half_open now c = record c {
  failures = c.failures + 1;
  state = opened;
  opened_at = some now;
}
on_failure_in closed now c =
    if leb c.failure_threshold (c.failures + 1)
    then record c { failures = c.failures + 1; state = opened; opened_at = some now }
    else record c { failures = c.failures + 1 }
on_failure_in opened now c = record c { failures = c.failures + 1 }

-- `on_failure`
unfoldable pub on_failure : ℕ → CircuitBreaker → CircuitBreaker
unfolding on_failure_in
on_failure now c = on_failure_in c.state now c
