-- ===== src/RateLimit/Isolation.antt =====
-- What the limiter promises an agent: a bound on its calls, and independence from other agents.
use mcp_gateway_python.Prelude.{
  ℕ, ◌+◌, ◌-◌, ◌*◌, ◌≤◌, ◌≡◌, refl, inl, inr, String, true, false, Option, none, some,
  if◌then◌else◌, lookup, lookup-insert, get_or, List, [], ◌∷◌, Result, ok, err, arith, ◌==◌, eq_iff,
  eq_refl, Bool-cases, ap, ◌∙◌,
}
use mcp_gateway_python.RateLimit.Bucket.{TokenBucket, one_token, new, consume}
use mcp_gateway_python.RateLimit.Window.{
  count_allowed, Runs, consume-spends, split_time, Ordered, last_time, last_time-le,
}
use mcp_gateway_python.RateLimit.Limiter.{
  RateLimiterConfig, RateLimiter, CheckError, new_limiter, agent_rate, agent_burst, agent_bucket,
  consume_tool, check,
}

-- A call: its agent, its tool, and the two readings of the clock.
pub record Call : Type 0 where
  pub agent : String
  pub tool : String
  pub at : ℕ
  pub then_at : ℕ

unfoldable pub checked : Call → RateLimiter → Result CheckError (Unit {0}) × RateLimiter
checked c r = check c.agent c.tool c.at c.then_at r

abbrev pub count_ok : Result CheckError (Unit {0}) → ℕ
count_ok (ok _) = 1
count_ok (err _) = 0

-- The number of an agent's calls that the limiter lets through, among the calls of all agents.
unfoldable pub admitted : String → List Call → RateLimiter → ℕ
admitted agent [] r = 0
admitted agent (c ∷ cs) r =
    let (v, r') = checked c r in (if c.agent == agent then count_ok v else 0) + admitted agent cs r'

abbrev pub times : List Call → List ℕ
times [] = []
times (c ∷ cs) = c.at ∷ times cs

-- A check changes no bucket of another agent.
other_agent :
    (c : Call) (agent : String) (r : RateLimiter)
    → (c.agent == agent) ≡ false
    → lookup agent (checked c r).1.agent_buckets ≡ lookup agent r.agent_buckets
unfolding checked check consume_tool
other_agent c agent r ne = ground (
  arith,
  lookup-insert c.agent agent (consume one_token c.at (agent_bucket c.agent c.at r)).1
      r.agent_buckets,
)

-- A check of an enabled limiter lets a call through only if the agent's bucket does.
own_bucket :
    (c : Call) (r : RateLimiter)
    → r.cfg.enabled ≡ true
    → let (done, b) = consume one_token c.at (agent_bucket c.agent c.at r) in
      (lookup c.agent (checked c r).1.agent_buckets ≡ some b)
      × (count_ok (checked c r).0 ≤ count_allowed done)
unfolding checked check consume_tool
own_bucket c r on = ground (
  arith,
  lookup-insert c.agent c.agent (consume one_token c.at (agent_bucket c.agent c.at r)).1
      r.agent_buckets,
  eq_refl c.agent,
)

spent_time : (rate t u : ℕ) → u ≡ t → (t - u) * rate ≡ 0
spent_time rate t u e = rw e (grind arith)

own_bucket_of :
    (c : Call) (agent : String) (r : RateLimiter)
    → c.agent ≡ agent
    → r.cfg.enabled ≡ true
    → let (done, b) = consume one_token c.at (agent_bucket agent c.at r) in
      (lookup agent (checked c r).1.agent_buckets ≡ some b)
      × (count_ok (checked c r).0 ≤ count_allowed done)
own_bucket_of c agent r name on = rw (← name) (own_bucket c r on)

cfg-checked : (c : Call) (r : RateLimiter) → (checked c r).1.cfg ≡ r.cfg
unfolding checked check consume_tool
cfg-checked c r = ground arith

-- At time `t` the agent's bucket holds, or would hold, at most `m`.
module _ (agent : String) (cfg : RateLimiterConfig) where
  abbrev Holds : ℕ → ℕ → Option TokenBucket → Type 0
  Holds t m none = agent_burst agent cfg ≤ m
  Holds t m (some b) =
      Runs (agent_rate agent cfg) b.last b
      × (b.last ≤ t)
      × (b.tokens + (t - b.last) * agent_rate agent cfg ≤ m)

  later-Holds :
      (o : Option TokenBucket) (t u m : ℕ)
      → t ≤ u
      → Holds t m o
      → Holds u (m + (u - t) * agent_rate agent cfg) o
  later-Holds none t u m le h = omega arith
  later-Holds (some b) t u m le h =
      (h.0, omega arith, omega (arith, split_time (agent_rate agent cfg) b.last t u h.1 le))

  -- The bucket that a check uses, after its call.
  used-Holds :
      (o : Option TokenBucket) (t u m : ℕ)
      → t ≤ u
      → Holds t m o
      → let (done, b) =
          consume one_token u (get_or o (new (agent_rate agent cfg) (agent_burst agent cfg) u)) in
        Runs (agent_rate agent cfg) u b
        × (count_allowed done * one_token + b.tokens ≤ m + (u - t) * agent_rate agent cfg)
  unfolding new
  used-Holds none t u m le h =
      let b = new (agent_rate agent cfg) (agent_burst agent cfg) u in
      let (runs, spent) = consume-spends (agent_rate agent cfg) u u b (refl, refl) in
      (runs, omega (arith, spent_time (agent_rate agent cfg) u u refl))
  used-Holds (some b) t u m le h =
      let (runs, spent) = consume-spends (agent_rate agent cfg) b.last u b h.0 in
      (runs, omega (arith, split_time (agent_rate agent cfg) b.last t u h.1 le))

  agent_bucket-cfg :
      (u : ℕ) (r : RateLimiter)
      → r.cfg ≡ cfg
      → agent_bucket agent u r
        ≡ get_or
            (lookup agent r.agent_buckets)
            (new (agent_rate agent cfg) (agent_burst agent cfg) u)
  unfolding agent_bucket
  agent_bucket-cfg u r e =
      ap
        (λ (k : RateLimiterConfig).
          get_or (lookup agent r.agent_buckets) (new (agent_rate agent k) (agent_burst agent k) u))
        e

  -- One check of any agent, with what the agent's bucket holds before and after it.
  step-Holds :
      (c : Call) (r : RateLimiter) (t m : ℕ)
      → r.cfg ≡ cfg
      → cfg.enabled ≡ true
      → t ≤ c.at
      → Holds t m (lookup agent r.agent_buckets)
      → (k : ℕ) × ((if c.agent == agent then count_ok (checked c r).0 else 0) * one_token + k
          ≤ m + (c.at - t) * agent_rate agent cfg)
        × Holds c.at k (lookup agent (checked c r).1.agent_buckets)
  step-Holds c r t m e on le h = elim (Bool-cases (c.agent == agent)) [
    | inl same ↦
        let name : c.agent ≡ agent = (eq_iff c.agent agent).0 same in
        let (stored, counted) = own_bucket_of c agent r name (rw e on) in
        let b = (consume one_token c.at (agent_bucket agent c.at r)).1 in
        let used =
          rw (← agent_bucket-cfg c.at r e) at
            (used-Holds (lookup agent r.agent_buckets) t c.at m le h) in
        (
          b.tokens,
          rw same (omega arith),
          rw stored (
            (used.0.0, refl),
            omega arith,
            omega (arith, spent_time (agent_rate agent cfg) c.at b.last used.0.1),
          ),
        )
    | inr other ↦ (
      m + (c.at - t) * agent_rate agent cfg,
      rw other (omega arith),
      rw (other_agent c agent r other) (later-Holds (lookup agent r.agent_buckets) t c.at m le h),
    )
  ]

  admitted-le :
      (cs : List Call) (r : RateLimiter) (t m : ℕ)
      → r.cfg ≡ cfg
      → cfg.enabled ≡ true
      → Ordered t (times cs)
      → Holds t m (lookup agent r.agent_buckets)
      → admitted agent cs r * one_token ≤ m + (last_time t (times cs) - t) * agent_rate agent cfg
  unfolding admitted
  admitted-le [] r t m e on o h = omega arith
  admitted-le (c ∷ cs) r t m e on o h =
      let (k, spent, held) = step-Holds c r t m e on o.0 h in
      let rest = admitted-le cs (checked c r).1 c.at k (cfg-checked c r ∙ e) on o.1 held in
      omega (
        arith,
        split_time (agent_rate agent cfg) t c.at (last_time c.at (times cs)) o.0
            (last_time-le c.at (times cs) o.1),
      )

-- Of all the calls that reach an enabled limiter after its creation, of any agents and tools and in
-- any interleaving, it lets through for one agent at most the agent's burst and what the agent's
-- rate brings in over the time of those calls, overrides included.
pub admitted_bound :
    (agent : String) (cfg : RateLimiterConfig) (t : ℕ) (cs : List Call)
    → cfg.enabled ≡ true
    → Ordered t (times cs)
    → admitted agent cs (new_limiter cfg) * one_token
      ≤ agent_burst agent cfg + (last_time t (times cs) - t) * agent_rate agent cfg
unfolding new_limiter lookup
admitted_bound agent cfg t cs on o =
    admitted-le agent cfg cs (new_limiter cfg) t (agent_burst agent cfg) refl on o (omega arith)
