-- ===== src/Orchestrator/Overlap/Settles.antt =====
-- Each request that goes out is counted once, however calls overlap.
use mcp_gateway_python.Orchestrator.Overlap.Sends.{build_manifest-sent, answer-sent}
use mcp_gateway_python.Orchestrator.Overlap.{
  Flight, join, answer, Pending, Begun, Step, begin, Picks, Reach, start, ◌∷◌, here, begins,
  waiting, depart, Call, more, hit, ask, there, answers, resolve, registers, swaps, lists, Option,
  flushes, String,
}
use mcp_gateway_python.Prelude.{
  inl, inr, refl, ap, ok, err, ◌==◌, ◌||◌, ◌+◌, ◌≡◌, suc, length, List, Result, ℕ, arith,
  Result-cases, if◌then◌else◌, ◌∙◌, [], Bool-cases,
}
use mcp_gateway_python.Orchestrator.Call.{build_manifest, after_upstream, finish, then_do, checked}
use mcp_gateway_python.Orchestrator.Steps.{
  replied, call_failed, store, count, emit_audit, notify, target, limited_by, authorize, limit,
  guard, validate_schema, look_up, Target,
}
use mcp_gateway_python.Orchestrator.Gateway.{
  World, Gateway, Counted, UpstreamReply, CallError, Clock, orchestration_error, server_disabled,
}

-- The counted calls that got as far as an answer of the upstream, or an exception of the client.
abbrev pub settled : List Counted → ℕ
settled [] = 0
settled (c ∷ cs) =
    if c.status == "ok" || c.status == "upstream_error" || c.status == "error"
    then suc (settled cs)
    else settled cs

-- Each request that went out is awaited, or counted.
abbrev pub IsBalanced : Flight → Type 0
IsBalanced s = length s.gateway.sent ≡ length s.pending + settled s.gateway.counted

-- Neither requests nor counts of answers.
abbrev IsQuiet : Gateway → Gateway → Type 0
IsQuiet g h = (h.sent ≡ g.sent) × (settled h.counted ≡ settled g.counted)

-- A request where a call waits, and none where it does not.
abbrev Moves : Gateway → Result CallError Begun × Gateway → Type 0
Moves g (ok (waiting p), h) =
    (length h.sent ≡ suc (length g.sent)) × (settled h.counted ≡ settled g.counted)
Moves g (ok (hit r), h) = IsQuiet g h
Moves g (err e, h) = IsQuiet g h

Moves-from :
    (g h : Gateway) (r : Result CallError Begun × Gateway) → IsQuiet g h → Moves h r → Moves g r
Moves-from g h (ok (waiting p), k) q m = (ground (arith, ap length q.0), m.1 ∙ q.1)
Moves-from g h (ok (hit r), k) q m = (m.0 ∙ q.0, m.1 ∙ q.1)
Moves-from g h (err e, k) q m = (m.0 ∙ q.0, m.1 ∙ q.1)

build_manifest-counted :
    (tag : Option String) (now : ℕ) (g : Gateway) → (build_manifest tag now g).1.counted ≡ g.counted
unfolding build_manifest
build_manifest-counted tag now g = ground arith

module _ (w : World) where
  module _ (t : Target) (c : Clock) where
    authorize-IsQuiet : (g : Gateway) → IsQuiet g (authorize w t g).1
    unfolding authorize emit_audit count
    authorize-IsQuiet g = ground arith

    limit-IsQuiet : (g : Gateway) → IsQuiet g (limit w t c g).1
    unfolding limit limited_by emit_audit count
    limit-IsQuiet g = ground arith

    guard-IsQuiet : (g : Gateway) → IsQuiet g (guard w t g).1
    unfolding guard emit_audit count notify
    guard-IsQuiet g = ground arith

    validate_schema-IsQuiet : (g : Gateway) → IsQuiet g (validate_schema w t g).1
    unfolding validate_schema emit_audit count notify
    validate_schema-IsQuiet g = ground arith

    depart-Moves : (g : Gateway) → Moves g (depart w t c g)
    unfolding depart ask look_up
    depart-Moves g = ground arith

    then_do-Moves :
        (g : Gateway) (m : Result CallError (Unit {0}) × Gateway)
        (k : Gateway → Result CallError Begun × Gateway)
        → IsQuiet g m.1
        → ((h : Gateway) → Moves h (k h))
        → Moves g (then_do w t c m k)
    unfolding then_do
    then_do-Moves g (ok _, h) k q next = Moves-from g h (k h) q (next h)
    then_do-Moves g (err e, h) k q next = q

    checked-Moves : (g : Gateway) → Moves g (checked w t c (depart w t c) g)
    unfolding checked
    checked-Moves g = then_do-Moves g (authorize w t g) _ (authorize-IsQuiet g) (λ g1.
        then_do-Moves g1 (limit w t c g1) _ (limit-IsQuiet g1) (λ g2.
          then_do-Moves g2 (guard w t g2) _ (guard-IsQuiet g2) (λ g3.
            then_do-Moves g3 (validate_schema w t g3) _ (validate_schema-IsQuiet g3) depart-Moves)))

  begin-Moves : (q : Call) (g : Gateway) → Moves g (begin w q g)
  unfolding begin
  begin-Moves q g = elim (Result-cases (resolve q.name q.server_id g.registry)) [
    | inl (e, h) ↦ let at : begin w q g ≡ (err e, g) = ground arith in rw at (refl, refl)
    | inr ((entry, raw), h) ↦ elim (Bool-cases entry.server.enabled) [
      | inr off ↦
          let at : begin w q g
              ≡ (err (orchestration_error (server_disabled entry.server.id) 503), g) =
            ground arith in
          rw at (refl, refl)
      | inl on ↦
          let t = target q.principal q.request_id q.arguments (entry, raw) in
          let at : begin w q g ≡ checked w t q.clock (depart w t q.clock) g = ground arith in
          rw at (checked-Moves t q.clock g)
    ]
  ]

  Moves-join :
      (s : Flight) (r : Result CallError Begun × Gateway)
      → Moves s.gateway r
      → IsBalanced s
      → IsBalanced (record { gateway = r.1; pending = join r.0 s.pending })
  unfolding join
  Moves-join s (ok (waiting p), g) m b = ground (arith, m.0)
  Moves-join s (ok (hit x), g) m b = ground (arith, ap length m.0)
  Moves-join s (err e, g) m b = ground (arith, ap length m.0)

  Picks-length :
      (p : Pending) (ps rest : List Pending) → Picks p ps rest → length ps ≡ suc (length rest)
  Picks-length p ps rest (here x xs) = refl
  Picks-length p ps rest (there x y xs ys k) = ap suc (Picks-length x xs ys k)

  answer-settled :
      (p : Pending) (reply : UpstreamReply) (g : Gateway)
      → settled (answer w p reply g).1.counted ≡ suc (settled g.counted)
  unfolding answer after_upstream replied call_failed finish store count emit_audit notify
  answer-settled p reply g = ground arith

  Step-IsBalanced : (s u : Flight) → Step w s u → IsBalanced s → IsBalanced u
  Step-IsBalanced s u (begins q v) b = Moves-join s _ (begin-Moves q s.gateway) b
  Step-IsBalanced s u (answers p rest reply v k) b = omega (
    arith,
    answer-settled p reply v.gateway,
    ap length (answer-sent w p reply v.gateway),
    Picks-length p v.pending rest k,
  )
  Step-IsBalanced s u (registers n v) b = b
  Step-IsBalanced s u (swaps n v) b = b
  Step-IsBalanced s u (lists tag now v) b =
      rw (build_manifest-sent tag now v.gateway, build_manifest-counted tag now v.gateway) b
  Step-IsBalanced s u (flushes committed v) b = b

  -- However calls overlap: if at the start the requests that have gone out are as many as the calls
  -- that wait and those that have been counted as a success, an error of the upstream or an exception,
  -- then they still are, so that each request is awaited or counted once.
  pub reach-IsBalanced : (s u : Flight) → Reach w s u → IsBalanced s → IsBalanced u
  reach-IsBalanced s u (start v) b = b
  reach-IsBalanced s u (more v t x r k) b = Step-IsBalanced t u k (reach-IsBalanced s t r b)
