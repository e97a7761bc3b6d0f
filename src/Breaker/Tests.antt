-- ===== src/Breaker/Tests.antt =====
-- Runs of the breaker, and its theorems at inputs that meet their hypotheses.
use mcp_gateway_python.Prelude.{◌≡◌, refl, ◌↔◌, true, some, none, [], ◌∷◌, arith}
use mcp_gateway_python.Breaker.{
  CircuitBreaker, closed, opened, init, round_tenth, probe_at, on_success, on_failure,
}
use mcp_gateway_python.Breaker.Events.{call, success, failure, step, run}
use mcp_gateway_python.Breaker.Invariant.{IsValid}
use mcp_gateway_python.Breaker.Trip.{trips, Streak, trips_iff-Streak}
use mcp_gateway_python.Breaker.Recovery.{successes, run-recovers}

abbrev pg : CircuitBreaker
pg = record {
  server_id = "pg";
  failure_threshold = 2;
  recovery_timeout = 30000;
  probe_successes = 2;
  state = opened;
  failures = 2;
  probe_ok = 0;
  opened_at = some 500;
}

pg-IsValid : IsValid pg
pg-IsValid = record { threshold = omega arith; probes = omega arith; fits = (omega arith, refl) }

-- Two failures open a circuit with threshold 2; a success between them does not let it.
opens : (run (failure 100 ∷ failure 500 ∷ []) (init "pg" 2 30000 2)) ≡ pg
unfolding run step on_failure init
opens = refl

stays_closed : (run (failure 1 ∷ success ∷ failure 2 ∷ []) (init "pg" 2 30000 2)).state ≡ closed
unfolding run step on_failure on_success init
stays_closed = refl

retry_after : round_tenth 1250 ≡ 1200
unfolding round_tenth
retry_after = refl

trips_iff-Streak_example :
    (trips (failure 1 ∷ call 2 ∷ failure 3 ∷ []) (init "pg" 2 30000 2) ≡ true)
    ↔ Streak 2 (failure 1 ∷ call 2 ∷ failure 3 ∷ [])
trips_iff-Streak_example =
    trips_iff-Streak "pg" 2 30000 2 (failure 1 ∷ call 2 ∷ failure 3 ∷ []) (omega arith)

run-recovers_example :
    let c' = run (call 31000 ∷ successes 2) pg in
    (c'.state ≡ closed) × (c'.failures ≡ 0) × (c'.opened_at ≡ none)
unfolding probe_at
run-recovers_example = run-recovers pg 31000 pg-IsValid refl (omega arith) 2 (omega arith)
