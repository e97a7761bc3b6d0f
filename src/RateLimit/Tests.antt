-- ===== src/RateLimit/Tests.antt =====
-- Runs of the limiter, and its theorems at inputs that meet their hypotheses.
use mcp_gateway_python.Prelude.{◌≡◌, ◌≤◌, ◌*◌, ◌-◌, ◌+◌, refl, true, List, [], ◌∷◌, arith}
use mcp_gateway_python.RateLimit.Bucket.{TokenBucket, wait, one_token, new, consume}
use mcp_gateway_python.RateLimit.Window.{granted, last_time}
use mcp_gateway_python.RateLimit.Limiter.{RateLimiterConfig, new_limiter, agent_burst, agent_rate}
use mcp_gateway_python.RateLimit.Isolation.{Call, times, admitted, admitted_bound}

grants_three : granted (100 ∷ 110 ∷ 120 ∷ 900 ∷ []) (new 3000 2000000 50) ≡ 3
unfolding granted new consume
grants_three = refl

abbrev low : TokenBucket
low = record { rate = 3000; capacity = 2000000; tokens = 100000; last = 0 }

refused : (consume one_token 10 low).0 ≡ wait 290
unfolding consume
refused = refl

abbrev config : RateLimiterConfig
config = record {
  enabled = true;
  default_agent_rate = 10000;
  default_agent_burst = 20000000;
  default_tool_rate = 5000;
  default_tool_burst = 10000000;
  agents = ("ops-bot", ("agent_rate", 50000) ∷ []) ∷ [];
  tools = [];
}

abbrev calls : List Call
calls =
    record { agent = "ops-bot"; tool = "pg.sql"; at = 5; then_at = 5 }
    ∷ record { agent = "dev"; tool = "pg.sql"; at = 6; then_at = 6 }
    ∷ record { agent = "ops-bot"; tool = "fx.rate"; at = 8; then_at = 9 }
    ∷ []

admitted_bound_example :
    admitted "ops-bot" calls (new_limiter config) * one_token
    ≤ agent_burst "ops-bot" config + (last_time 1 (times calls) - 1) * agent_rate "ops-bot" config
admitted_bound_example = admitted_bound "ops-bot" config 1 calls refl (omega arith)
