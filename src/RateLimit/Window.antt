-- ===== src/RateLimit/Window.antt =====
-- The bound that a token bucket is for: over any stretch of time it lets through no more than what
-- it held and what its rate brought in.
use mcp_gateway_python.Prelude.{ℕ, ◌+◌, ◌-◌, ◌*◌, ◌≤◌, List, [], ◌∷◌, arith, ◌≡◌, refl}
use mcp_gateway_python.RateLimit.Bucket.{TokenBucket, Consumed, allowed, one_token, new, consume}

abbrev pub count_allowed : Consumed → ℕ
count_allowed allowed = 1
count_allowed _ = 0

-- The number of calls let through, of calls at the given times.
unfoldable pub granted : List ℕ → TokenBucket → ℕ
granted [] b = 0
granted (t ∷ ts) b = let (r, b') = consume one_token t b in count_allowed r + granted ts b'

-- Times that do not decrease, from one on, and the last of them.
abbrev pub Ordered : ℕ → List ℕ → Type 0
Ordered t [] = Unit {0}
Ordered t (u ∷ us) = (t ≤ u) × Ordered u us

abbrev pub last_time : ℕ → List ℕ → ℕ
last_time t [] = t
last_time t (u ∷ us) = last_time u us

pub last_time-le : (t : ℕ) (us : List ℕ) → Ordered t us → t ≤ last_time t us
last_time-le t [] h = omega arith
last_time-le t (u ∷ us) h = omega (arith, last_time-le u us h.1)

pub split_time : (r a b c : ℕ) → a ≤ b → b ≤ c → (b - a) * r + (c - b) * r ≡ (c - a) * r
split_time r a b c h k = grind arith

-- A bucket with the given rate, last used at the given time.
abbrev pub Runs : ℕ → ℕ → TokenBucket → Type 0
Runs r t b = (b.rate ≡ r) × (b.last ≡ t)

module _ (r : ℕ) where
  -- One call spends from what the bucket held and what came in since.
  pub consume-spends :
      (t₀ t : ℕ) (b : TokenBucket)
      → Runs r t₀ b
      → let (done, b') = consume one_token t b in
        Runs r t b' × (count_allowed done * one_token + b'.tokens ≤ b.tokens + (t - t₀) * r)
  unfolding consume
  consume-spends t₀ t b h = ground arith

  granted-le :
      (t₀ : ℕ) (ts : List ℕ) (b : TokenBucket)
      → Runs r t₀ b
      → Ordered t₀ ts
      → granted ts b * one_token ≤ b.tokens + (last_time t₀ ts - t₀) * r
  unfolding granted
  granted-le t₀ [] b h o = omega arith
  granted-le t₀ (t ∷ ts) b h o =
      let b' = (consume one_token t b).1 in
      let (runs, spent) = consume-spends t₀ t b h in
      omega (
        arith,
        granted-le t ts b' runs o.1,
        split_time r t₀ t (last_time t ts) o.0 (last_time-le t ts o.1),
      )

-- A bucket lets through at most its capacity and what its rate brings in up to the last call, for
-- calls at any times in order from its creation on.
pub granted_bound :
    (rate capacity t₀ : ℕ) (ts : List ℕ)
    → Ordered t₀ ts
    → granted ts (new rate capacity t₀) * one_token ≤ capacity + (last_time t₀ ts - t₀) * rate
unfolding new
granted_bound rate capacity t₀ ts o = granted-le rate t₀ ts (new rate capacity t₀) (refl, refl) o
