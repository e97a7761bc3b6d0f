-- ===== src/Breaker/Trip.antt =====
-- When a closed circuit opens: exactly when enough failures come with no success among them.
use mcp_gateway_python.Prelude.{
  ℕ, suc, ◌+◌, ◌≤◌, ◌<◌, ◌≡◌, refl, ◌↔◌, ◌⊎◌, inl, inr, Bool, true, false, ◌||◌, List, [], ◌∷◌,
  String, arith, leb, Bool-cases,
}
use mcp_gateway_python.Breaker.{
  CircuitState, closed, opened, half_open, CircuitBreaker, init, before_call, on_success,
  on_failure,
}
use mcp_gateway_python.Breaker.Events.{Event, call, success, failure, step}

abbrev is_opened : CircuitState → Bool
is_opened closed = false
is_opened opened = true
is_opened half_open = false

-- The circuit is open at some point of a sequence of events.
unfoldable pub trips : List Event → CircuitBreaker → Bool
trips [] c = is_opened c.state
trips (e ∷ es) c = is_opened c.state || trips es (step e c)

-- The failures before the first success; a call by itself is neither.
abbrev pub leading : List Event → ℕ
leading [] = 0
leading (call now ∷ es) = leading es
leading (success ∷ es) = 0
leading (failure now ∷ es) = suc (leading es)

-- From some point of the history on, `k` failures come before the next success.
pub data Streak (k : ℕ) : List Event → Type 0 where
  here : (es : List Event) → k ≤ leading es → Streak k es
  later : (e : Event) {es : List Event} → Streak k es → Streak k (e ∷ es)

-- What is left of a streak, with `f` failures before it, once its first event is past.
abbrev Due : ℕ → ℕ → Event → List Event → Type 0
Due k f e es = (k ≤ f + leading (e ∷ es)) ⊎ Streak k es

resume :
    {k : ℕ} (e : Event) (es : List Event) (f : ℕ)
    → (k ≤ f + leading (e ∷ es)) ⊎ Streak k (e ∷ es)
    → Due k f e es
resume e es f (inl p) = inl p
resume e es f (inr (here _ p)) = inl (omega arith)
resume e es f (inr (later _ r)) = inr r

record Counts (k : ℕ) (c : CircuitBreaker) : Type 0 where
  threshold : c.failure_threshold ≡ k
  is_closed : c.state ≡ closed
  below : c.failures < k

module _ (k : ℕ) where
  call-Counts : (now : ℕ) (c : CircuitBreaker) → Counts k c → step (call now) c ≡ c
  unfolding step before_call
  call-Counts now c v = ground arith

  success-Counts :
      (c : CircuitBreaker)
      → Counts k c
      → Counts k (step success c) × ((step success c).failures ≡ 0)
  unfolding step on_success
  success-Counts c v = ground arith

  failure-Counts :
      (now : ℕ) (c : CircuitBreaker)
      → Counts k c
      → c.failures + 1 < k
      → Counts k (step (failure now) c) × ((step (failure now) c).failures ≡ c.failures + 1)
  unfolding step on_failure
  failure-Counts now c v h = ground arith

  failure-opens :
      (now : ℕ) (c : CircuitBreaker)
      → Counts k c
      → k ≤ c.failures + 1
      → (step (failure now) c).state ≡ opened
  unfolding step on_failure
  failure-opens now c v h = ground arith

  trips-opened : (es : List Event) (c : CircuitBreaker) → c.state ≡ opened → trips es c ≡ true
  unfolding trips
  trips-opened [] c e = ground arith
  trips-opened (_ ∷ es) c e = ground arith

  trips_sound :
      (es : List Event) (c : CircuitBreaker)
      → Counts k c
      → trips es c ≡ true
      → (k ≤ c.failures + leading es) ⊎ Streak k es
  unfolding trips
  trips_sound [] c v h = ground arith
  trips_sound (call now ∷ es) c v h =
      ground
        (arith, call-Counts now c v, trips_sound es c v, λ (r : Streak k es). later (call now) r)
  trips_sound (success ∷ es) c v h =
      let s = success-Counts c v in
      elim (trips_sound es (step success c) s.0 (ground arith)) [
        | inl p ↦ inr (later success (here es (omega arith)))
        | inr r ↦ inr (later success r)
      ]
  trips_sound (failure now ∷ es) c v h = elim (Bool-cases (leb k (c.failures + 1))) [
    | inl trip ↦ inl (ground arith)
    | inr stay ↦
        let s = failure-Counts now c v (ground arith) in
        elim (trips_sound es (step (failure now) c) s.0 (ground arith)) [
          | inl p ↦ inl (omega arith)
          | inr r ↦ inr (later (failure now) r)
        ]
  ]

  trips_complete :
      (es : List Event) (c : CircuitBreaker)
      → Counts k c
      → (k ≤ c.failures + leading es) ⊎ Streak k es
      → trips es c ≡ true
  unfolding trips
  trips_complete [] c v (inl p) = absurd (omega arith)
  trips_complete [] c v (inr (here _ p)) = absurd (omega arith)
  trips_complete (call now ∷ es) c v h =
      ground (arith, call-Counts now c v, trips_complete es c v (resume (call now) es c.failures h))
  trips_complete (success ∷ es) c v h =
      let s = success-Counts c v in
      let h' = resume success es c.failures h in
      ground (
        arith,
        trips_complete es (step success c) s.0
            (elim h' [ inl p ↦ absurd (omega arith) | inr r ↦ inr r ]),
      )
  trips_complete (failure now ∷ es) c v h = elim (Bool-cases (leb k (c.failures + 1))) [
    | inl trip ↦
        ground
          (arith, trips-opened es (step (failure now) c) (failure-opens now c v (ground arith)))
    | inr stay ↦
        let s = failure-Counts now c v (ground arith) in
        let h' = resume (failure now) es c.failures h in
        ground (
          arith,
          trips_complete es (step (failure now) c) s.0
              (elim h' [ inl p ↦ inl (omega arith) | inr r ↦ inr r ]),
        )
  ]

-- Over all interleavings of calls and outcomes, a new breaker is open at some point exactly when
-- from some point of the history on at least `threshold` failures come before the next success.
pub trips_iff-Streak :
    (sid : String) (threshold timeout probes : ℕ) (es : List Event)
    → 0 < threshold
    → (trips es (init sid threshold timeout probes) ≡ true) ↔ Streak threshold es
unfolding init
trips_iff-Streak sid threshold timeout probes es h =
    let c = init sid threshold timeout probes in
    let v : Counts threshold c = record { threshold = refl; is_closed = refl; below = h } in
    (
      λ t. elim (trips_sound threshold es c v t) [ inl p ↦ here es (omega arith) | inr r ↦ r ],
      λ r. trips_complete threshold es c v (inr r),
    )
