-- ===== src/RateLimit/Limiter.antt =====
-- `RateLimiter`. A bucket is created full at its first use. `check` reads the clock once for the
-- agent's bucket and once for the tool's, the second time only if the first lets the call through.
use mcp_gateway_python.Prelude.{
  ℕ, String, Bool, not, if◌then◌else◌, Dict, lookup, insert, get_or, [], Result, ok, err, length,
}
use mcp_gateway_python.Prelude.Text.{◌<>◌}
use mcp_gateway_python.RateLimit.Bucket.{
  TokenBucket, Consumed, allowed, wait, zero_division, one_token, new, consume,
}

pub record RateLimiterConfig : Type 0 where
  pub enabled : Bool
  pub default_agent_rate : ℕ
  pub default_agent_burst : ℕ
  pub default_tool_rate : ℕ
  pub default_tool_burst : ℕ
  pub agents : Dict (Dict ℕ)
  pub tools : Dict (Dict ℕ)

pub record RateLimiter : Type 0 where
  pub cfg : RateLimiterConfig
  pub agent_buckets : Dict TokenBucket
  pub tool_buckets : Dict TokenBucket

-- `RateLimitExceeded`, or the ZeroDivisionError that a bucket of rate 0 raises.
pub data CheckError : Type 0 where
  rate_limit_exceeded : String → ℕ → CheckError
  zero_division_error : CheckError

-- `RateLimiter.__init__`
unfoldable pub new_limiter : RateLimiterConfig → RateLimiter
new_limiter cfg = record { cfg = cfg; agent_buckets = []; tool_buckets = [] }

-- `cfg.agents.get(agent_id, {}).get(key, default)`
unfoldable pub setting : String → ℕ → String → Dict (Dict ℕ) → ℕ
setting key default name overrides = get_or (lookup key (get_or (lookup name overrides) [])) default

unfoldable pub agent_rate : String → RateLimiterConfig → ℕ
unfolding setting
agent_rate agent cfg = setting "agent_rate" cfg.default_agent_rate agent cfg.agents

unfoldable pub agent_burst : String → RateLimiterConfig → ℕ
unfolding setting
agent_burst agent cfg = setting "agent_burst" cfg.default_agent_burst agent cfg.agents

-- `_agent_bucket`
unfoldable pub agent_bucket : String → ℕ → RateLimiter → TokenBucket
agent_bucket agent now r =
    get_or (lookup agent r.agent_buckets)
      (new (agent_rate agent r.cfg) (agent_burst agent r.cfg) now)

unfoldable pub tool_key : String → String → String
tool_key agent tool = agent <> ":" <> tool

-- `_tool_bucket`
unfoldable pub tool_bucket : String → String → ℕ → RateLimiter → TokenBucket
unfolding tool_key setting
tool_bucket agent tool now r =
    let rate = setting "rate" r.cfg.default_tool_rate tool r.cfg.tools in
    let burst = setting "burst" r.cfg.default_tool_burst tool r.cfg.tools in
    get_or (lookup (tool_key agent tool) r.tool_buckets) (new rate burst now)

-- `await self._agent_bucket(agent_id).consume()`, which changes the bucket in place.
unfoldable pub consume_agent : String → ℕ → RateLimiter → Consumed × RateLimiter
consume_agent agent now r =
    let (c, b) = consume one_token now (agent_bucket agent now r) in
    (c, record r { agent_buckets = insert agent b r.agent_buckets })

unfoldable pub consume_tool : String → String → ℕ → RateLimiter → Consumed × RateLimiter
consume_tool agent tool now r =
    let (c, b) = consume one_token now (tool_bucket agent tool now r) in
    (c, record r { tool_buckets = insert (tool_key agent tool) b r.tool_buckets })

abbrev pub verdict : String → Consumed → Result CheckError (Unit {0})
verdict scope allowed = ok tt
verdict scope (wait retry) = err (rate_limit_exceeded scope retry)
verdict scope zero_division = err zero_division_error

abbrev pub agent_scope : String → String
agent_scope agent = "agent:" <> agent

abbrev pub tool_scope : String → String → String
tool_scope agent tool = "tool:" <> agent <> ":" <> tool

check_tool :
    String → String → ℕ → Consumed × RateLimiter → Result CheckError (Unit {0}) × RateLimiter
unfolding consume_tool
check_tool agent tool now (allowed, r) =
    let (c, r') = consume_tool agent tool now r in (verdict (tool_scope agent tool) c, r')
check_tool agent tool now (wait retry, r) = (verdict (agent_scope agent) (wait retry), r)
check_tool agent tool now (zero_division, r) = (verdict (agent_scope agent) zero_division, r)

-- `check`, with its two readings of the clock.
unfoldable pub check :
    String → String → ℕ → ℕ → RateLimiter → Result CheckError (Unit {0}) × RateLimiter
unfolding check_tool consume_agent
check agent tool t u r =
    if not r.cfg.enabled then (ok tt, r) else check_tool agent tool u (consume_agent agent t r)

-- `stats`
unfoldable pub stats : RateLimiter → ℕ × ℕ
stats r = (length r.agent_buckets, length r.tool_buckets)
