-- ===== src/Breaker/Recovery.antt =====
-- What an open circuit does: it fails fast until its timeout, and then closes or opens by probes.
use mcp_gateway_python.Prelude.{
  ℕ, zero, suc, ◌+◌, ◌-◌, ◌≤◌, ◌<◌, ◌≡◌, List, [], ◌∷◌, All, map, arith, lt→ltb, none, some, ok,
  err,
}
use mcp_gateway_python.Breaker.{
  closed, opened, half_open, CircuitBreaker, round_tenth, probe_at, before_call, on_success,
  on_failure,
}
use mcp_gateway_python.Breaker.Events.{Event, call, success, failure, step, run}
use mcp_gateway_python.Breaker.Invariant.{IsValid}

-- An event that is no call at or after time `d`.
abbrev pub Before : ℕ → Event → Type 0
Before d (call now) = now < d
Before d success = Unit
Before d (failure now) = Unit

step-opened :
    (e : Event) (c : CircuitBreaker)
    → c.state ≡ opened
    → Before (probe_at c) e
    → ((step e c).state ≡ opened)
      × (probe_at (step e c) ≡ probe_at c)
      × ((step e c).server_id ≡ c.server_id)
unfolding step before_call on_success on_failure
step-opened (call now) c e h = ground arith
step-opened success c e h = ground arith
step-opened (failure now) c e h = ground arith

-- An open circuit stays open, with the same end of its timeout, whatever calls and late outcomes
-- come before that time, and rejects every call before it with the time left.
pub run-opened_rejects :
    (es : List Event) (c : CircuitBreaker) (now : ℕ)
    → c.state ≡ opened
    → All (Before (probe_at c)) es
    → now < probe_at c
    → (before_call now (run es c)).0
      ≡ err (record { server_id = c.server_id; retry_after = round_tenth (probe_at c - now) })
unfolding run
run-opened_rejects [] c now e h lt =
    unfold before_call in ground (arith, lt→ltb now (probe_at c) lt)
run-opened_rejects (x ∷ es) c now e h lt =
    let (o, at, sid) = step-opened x c e h.0 in
    cc (run-opened_rejects es (step x c) now o (rw at h.1) (rw at lt), at, sid)

-- `m` calls that succeed one after the other.
abbrev pub successes : ℕ → List Event
successes zero = []
successes (suc m) = success ∷ successes m

-- A circuit that probes, with `p` probes passed.
abbrev Probing : ℕ → CircuitBreaker → Type 0
Probing p c = (c.state ≡ half_open) × (c.probe_ok ≡ p) × (c.probe_ok < c.probe_successes)

abbrev Healthy : CircuitBreaker → Type 0
Healthy c = (c.state ≡ closed) × (c.failures ≡ 0) × (c.opened_at ≡ none)

run-closed : (m : ℕ) (c : CircuitBreaker) → Healthy c → Healthy (run (successes m) c)
unfolding run step on_success
run-closed zero c h = h
run-closed (suc m) c h = run-closed m (step success c) (ground arith)

run-Probing :
    (m p : ℕ) (c : CircuitBreaker)
    → Probing p c
    → p + m < c.probe_successes
    → Probing (p + m) (run (successes m) c)
unfolding run step on_success
run-Probing zero p c h lt = ground arith
run-Probing (suc m) p c h lt = ground (arith, run-Probing m (p + 1) (step success c))

run-Healthy :
    (m p : ℕ) (c : CircuitBreaker)
    → Probing p c
    → c.probe_successes ≤ p + m
    → Healthy (run (successes m) c)
unfolding run step on_success
run-Healthy zero p c h le = absurd (omega arith)
run-Healthy (suc m) p c h le =
    ground (arith, run-Healthy m (p + 1) (step success c), run-closed m (step success c))

module _ (c : CircuitBreaker) (now : ℕ) (v : IsValid c) (o : c.state ≡ opened)
    (due : probe_at c ≤ now) where
  probe_starts :
      Probing 0 (step (call now) c) × ((step (call now) c).probe_successes ≡ c.probe_successes)
  unfolding step before_call
  probe_starts = ground arith

  -- From the end of a valid open circuit's timeout on, a call followed by at least as many
  -- successes as it wants probes closes the circuit, with no failure counted and no opening time.
  pub run-recovers :
      (m : ℕ)
      → c.probe_successes ≤ m
      → let c' = run (call now ∷ successes m) c in
        (c'.state ≡ closed) × (c'.failures ≡ 0) × (c'.opened_at ≡ none)
  unfolding run
  run-recovers m le =
      let (p, same) = probe_starts in run-Healthy m 0 (step (call now) c) p (omega arith)

  -- With fewer successes the circuit is half open, and one failure then opens it again, with the
  -- timeout counted from that failure.
  pub run-reopens :
      (m later : ℕ)
      → m < c.probe_successes
      → let c' = run (call now ∷ successes m) c in
        (c'.state ≡ half_open)
        × ((on_failure later c').state ≡ opened)
        × ((on_failure later c').opened_at ≡ some later)
  unfolding run on_failure
  run-reopens m later lt =
      let (p, same) = probe_starts in
      let h = run-Probing m 0 (step (call now) c) p (omega arith) in ground arith

-- While a circuit is half open every call is admitted: nothing bounds the probes in flight.
pub half_open-admits :
    (c : CircuitBreaker) (times : List ℕ) (now : ℕ)
    → c.state ≡ half_open
    → (before_call now (run (map call times) c)).0 ≡ ok tt
unfolding run step before_call
half_open-admits c [] now h = ground arith
half_open-admits c (t ∷ ts) now h = half_open-admits (step (call t) c) ts now (ground arith)
