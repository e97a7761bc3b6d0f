-- ===== src/RateLimit/Retry.antt =====
-- What the `retry_after` of a refusal is worth.
use mcp_gateway_python.Prelude.{
  ℕ, ◌+◌, ◌-◌, ◌*◌, ◌/◌, ◌%◌, ◌≤◌, ◌<◌, arith, ◌≡◌, ◌⊎◌, inl, inr, ◌≢◌,
}
use mcp_gateway_python.RateLimit.Bucket.{TokenBucket, allowed, wait, consume, round_div}

round_div-cases :
    (d r : ℕ)
    → ((round_div d r ≡ d / r) × (2 * (d % r) ≤ r))
      ⊎ ((round_div d r ≡ d / r + 1) × (r ≤ 2 * (d % r)))
unfolding round_div
round_div-cases d r = ground arith

-- The rounded quotient is within one of the exact one.
round_div_bounds : (d r : ℕ) → 0 < r → (d < (round_div d r + 1) * r) × (round_div d r * r < d + r)
round_div_bounds d r h = elim (round_div-cases d r) [
  | inl (e, small) ↦ rw e (grind arith, grind arith)
  | inr (e, large) ↦ rw e (grind arith, grind arith)
]

-- A call goes through if the capacity and what has come in suffice, and otherwise does not.
enough :
    (n t : ℕ) (b : TokenBucket)
    → n ≤ b.capacity
    → n ≤ b.tokens + (t - b.last) * b.rate
    → (consume n t b).0 ≡ allowed
unfolding consume
enough n t b h k = ground arith

short :
    (n t : ℕ) (b : TokenBucket) → b.tokens + (t - b.last) * b.rate < n → (consume n t b).0 ≢ allowed
unfolding consume
short n t b h = ground arith

-- The bucket that a refusal leaves, and the wait that it tells.
record Refusal (n now w : ℕ) (b : TokenBucket) : Type 0 where
  short_by : b.tokens < n
  positive : 0 < b.rate
  told : w ≡ round_div (n - b.tokens) b.rate
  since : b.last ≡ now

wait-injective : (v w : ℕ) → wait v ≡ wait w → v ≡ w
wait-injective v w e = cc

refusal :
    (n now w : ℕ) (b : TokenBucket)
    → (consume n now b).0 ≡ wait w
    → Refusal n now w (consume n now b).1 × ((consume n now b).1.capacity ≡ b.capacity)
unfolding consume round_div
refusal n now w b e = ground arith

-- The time to wait against the time to bring in `d`.
late : (d r w e : ℕ) → 0 < r → w ≡ round_div d r → w + 1 ≤ e → d ≤ e * r
late d r w e h q le =
    let bounds = round_div_bounds d r h in
    let f : (round_div d r + 1) * r ≤ e * r = grind arith in omega arith

early : (d r w e : ℕ) → 0 < r → 0 < d → w ≡ round_div d r → (e + 1 ≤ w) ⊎ (e ≡ 0) → e * r < d
early d r w e h pos q (inl le) =
    let bounds = round_div_bounds d r h in
    let f : (e + 1) * r ≤ round_div d r * r = grind arith in omega arith
early d r w e h pos q (inr z) = rw z (omega arith)

-- A refused call, with the time to wait that it was told.
module _ (n now w : ℕ) (b : TokenBucket) (fits : n ≤ b.capacity)
    (refused : (consume n now b).0 ≡ wait w) where
  -- Later than the wait, by a millisecond for the rounding, the call goes through.
  pub retry_allowed : (t : ℕ) → now + w + 1 ≤ t → (consume n t (consume n now b).1).0 ≡ allowed
  retry_allowed t h =
      let b' = (consume n now b).1 in
      let (r, cap) = refusal n now w b refused in
      enough n t b' (omega arith) (
        omega (arith, late (n - b'.tokens) b'.rate w (t - b'.last) r.positive r.told (omega arith)))

  -- Earlier than the wait, by a millisecond, it is refused again.
  pub retry_refused : (t : ℕ) → t + 1 ≤ now + w → (consume n t (consume n now b).1).0 ≢ allowed
  retry_refused t h =
      let b' = (consume n now b).1 in
      let (r, cap) = refusal n now w b refused in
      let f =
        early (n - b'.tokens) b'.rate w (t - b'.last) r.positive (omega arith) r.told
          (omega arith) in
      short n t b' (omega arith)
