-- ===== src/Orchestrator/Overlap/Split.antt =====
-- The two parts of a call are the call.
use mcp_gateway_python.Orchestrator.Steps.{call_upstream, authorize, limit, guard, validate_schema}
use mcp_gateway_python.Orchestrator.Overlap.{
  Begun, depart, begin, Target, ask, err, answer, Call, ok, hit, waiting, request_of, Fields,
  resolve, Bool, target, Option, Value,
}
use mcp_gateway_python.Orchestrator.Call.{checked, then_do, call_tool, steps, forward, serve}
use mcp_gateway_python.Orchestrator.Gateway.{World, CallError, Gateway, ToolCallResult, Clock}
use mcp_gateway_python.Prelude.{refl, none, some, inl, inr, Result, ◌≡◌, arith, Result-cases}

module _ (w : World) where
  -- The second part of a call right behind the first, with the upstream's answer to its request.
  abbrev pub complete : Result CallError Begun × Gateway → Result CallError ToolCallResult × Gateway
  complete (err e, g) = (err e, g)
  complete (ok (hit r), g) = (ok r, g)
  complete (ok (waiting p), g) = answer w p (w.upstream (request_of w p)) g

  module _ (t : Target) (c : Clock) where
    complete-ask :
        (args : Fields) (redacted : Bool) (m : Option Value × Gateway)
        → complete (ask w t c args redacted m) ≡ serve w t c args redacted m
    unfolding ask answer serve call_upstream
    complete-ask args redacted (some v, g) = refl
    complete-ask args redacted (none, g) = refl

    complete-depart : (g : Gateway) → complete (depart w t c g) ≡ forward w t c g
    unfolding depart forward
    complete-depart g = complete-ask _ _ _

    complete-then_do :
        (m : Result CallError (Unit {0}) × Gateway) (k : Gateway → Result CallError Begun × Gateway)
        (l : Gateway → Result CallError ToolCallResult × Gateway)
        → ((g : Gateway) → complete (k g) ≡ l g)
        → complete (then_do w t c m k) ≡ then_do w t c m l
    unfolding then_do
    complete-then_do (ok _, g) k l same = same g
    complete-then_do (err e, g) k l same = refl

    complete-checked :
        (g : Gateway) → complete (checked w t c (depart w t c) g) ≡ checked w t c (forward w t c) g
    unfolding checked
    complete-checked g = complete-then_do (authorize w t g) _ _ (λ g1.
        complete-then_do (limit w t c g1) _ _ (λ g2.
          complete-then_do (guard w t g2) _ _
            (λ g3. complete-then_do (validate_schema w t g3) _ _ complete-depart)))

  -- A call whose answer arrives before anything else happens is `call_tool`.
  pub complete-begin :
      (q : Call) (g : Gateway)
      → complete (begin w q g)
        ≡ call_tool w q.clock q.principal q.request_id q.name q.arguments q.server_id g
  unfolding begin call_tool steps
  complete-begin q g = elim (Result-cases (resolve q.name q.server_id g.registry)) [
    | inl (e, h) ↦ ground arith
    | inr ((entry, raw), h) ↦
        let t = target q.principal q.request_id q.arguments (entry, raw) in
        ground (arith, complete-checked t q.clock g)
  ]
