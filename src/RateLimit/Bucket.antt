-- ===== src/RateLimit/Bucket.antt =====
-- `TokenBucket`.
use mcp_gateway_python.Prelude.{ℕ, ◌+◌, ◌-◌, ◌*◌, ◌/◌, ◌%◌, min, ltb, leb, eqb, if◌then◌else◌}

pub record TokenBucket : Type 0 where
  pub rate : ℕ
  pub capacity : ℕ
  pub tokens : ℕ
  pub last : ℕ

-- What `consume` ends with: `(True, 0.0)`, `(False, wait)`, or the ZeroDivisionError of a rate of 0.
pub data Consumed : Type 0 where
  allowed : Consumed
  wait : ℕ → Consumed
  zero_division : Consumed

abbrev pub one_token : ℕ
one_token = 1000000

-- `TokenBucket(rate, capacity)`: full, from the time of its creation.
unfoldable pub new : ℕ → ℕ → ℕ → TokenBucket
new rate capacity now = record { rate = rate; capacity = capacity; tokens = capacity; last = now }

-- `round(wait, 3)` of seconds: to the nearest millisecond, ties to the even one.
unfoldable pub round_div : ℕ → ℕ → ℕ
round_div d rate =
    let q = d / rate in
    let r = d % rate in
    if ltb (2 * r) rate
    then q
    else if ltb rate (2 * r)
    then q + 1
    else if eqb (q % 2) 0
    then q
    else q + 1

-- The refill, and the write of `_last`. The clock is monotonic, so `now` is not before `last`.
unfoldable pub refill : ℕ → TokenBucket → TokenBucket
refill now b = record b { tokens = min b.capacity (b.tokens + (now - b.last) * b.rate); last = now }

take_tokens : ℕ → TokenBucket → Consumed × TokenBucket
unfolding round_div
take_tokens n b =
    if leb n b.tokens
    then (allowed, record b { tokens = b.tokens - n })
    else if eqb b.rate 0
    then (zero_division, b)
    else (wait (round_div (n - b.tokens) b.rate), b)

-- `consume`
unfoldable pub consume : ℕ → ℕ → TokenBucket → Consumed × TokenBucket
unfolding take_tokens refill
consume n now b = take_tokens n (refill now b)
