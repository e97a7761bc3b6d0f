-- ===== src/Breaker/Events.antt =====
-- What happens to a breaker over time. Calls overlap, so outcomes come in any order after the
-- calls that they answer; a sequence of events stands for every interleaving.
use mcp_gateway_python.Prelude.{ℕ, List, [], ◌∷◌}
use mcp_gateway_python.Breaker.{CircuitBreaker, before_call, on_success, on_failure}

pub data Event : Type 0 where
  call : ℕ → Event
  success : Event
  failure : ℕ → Event

unfoldable pub step : Event → CircuitBreaker → CircuitBreaker
step (call now) c = (before_call now c).1
step success c = on_success c
step (failure now) c = on_failure now c

unfoldable pub run : List Event → CircuitBreaker → CircuitBreaker
run [] c = c
run (e ∷ es) c = run es (step e c)
