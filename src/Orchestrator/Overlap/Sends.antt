-- ===== src/Orchestrator/Overlap/Sends.antt =====
-- What goes out, however calls overlap.
use mathlib.Core.Path.{subst}
use mcp_gateway_python.Orchestrator.Checks.{Permitted}
use mcp_gateway_python.Orchestrator.Overlap.Split.{complete, complete-begin}
use mcp_gateway_python.Registry.Servers.{RegistryEntry}
use mcp_gateway_python.Orchestrator.Overlap.{
  Flight, answer, Call, Reach, Begun, Pending, begin, start, more, begins, String, hit, waiting,
  request_of, answers, registers, swaps, lists, flushes, Option, ℕ,
}
use mcp_gateway_python.Prelude.{
  inl, inr, refl, ap, ok, err, List, [], Result, ◌≡◌, ◌⊎◌, ◌∷◌, arith, sym, ◌∙◌,
}
use mcp_gateway_python.Orchestrator.Call.{build_manifest, after_upstream, finish}
use mcp_gateway_python.Orchestrator.Steps.{
  replied, call_failed, store, count, emit_audit, notify, sent_request, target,
}
use mcp_gateway_python.Orchestrator.Safety.{outgoing, call_tool-sends, ResolvesTo}
use mcp_gateway_python.Orchestrator.Gateway.{World, Gateway, Sent, UpstreamReply, CallError}

pub build_manifest-sent :
    (tag : Option String) (now : ℕ) (g : Gateway) → (build_manifest tag now g).1.sent ≡ g.sent
unfolding build_manifest
build_manifest-sent tag now g = ground arith

module _ (w : World) where
  -- The name resolves to an enabled server, every check lets the call through, and the request is
  -- the one that it sends.
  abbrev pub Allows : Call → Gateway → Sent → Type 0
  Allows q g m =
      (e : RegistryEntry) × (raw : String) × ResolvesTo w q.clock q.principal q.request_id q.name
        q.arguments q.server_id g e raw
      × Permitted w (target q.principal q.request_id q.arguments (e, raw)) q.clock g
      × (m
          ≡ sent_request w (target q.principal q.request_id q.arguments (e, raw))
              (outgoing w (target q.principal q.request_id q.arguments (e, raw)) q.clock g))

  pub answer-sent :
      (p : Pending) (reply : UpstreamReply) (g : Gateway) → (answer w p reply g).1.sent ≡ g.sent
  unfolding answer after_upstream replied call_failed finish store count emit_audit notify
  answer-sent p reply g = ground arith

  complete-sent : (r : Result CallError Begun × Gateway) → (complete w r).1.sent ≡ r.1.sent
  complete-sent (err e, g) = refl
  complete-sent (ok (hit r), g) = refl
  complete-sent (ok (waiting p), g) = answer-sent p (w.upstream (request_of w p)) g

  begin-sends :
      (q : Call) (g : Gateway)
      → ((begin w q g).1.sent ≡ g.sent)
        ⊎ ((m : Sent) × Allows q g m × ((begin w q g).1.sent ≡ m ∷ g.sent))
  begin-sends q g =
      let same = sym (complete-sent (begin w q g)) ∙ ap (λ r. r.1.sent) (complete-begin w q g) in
      elim (call_tool-sends w q.clock q.principal q.request_id q.name q.arguments q.server_id g) [
        | inl kept ↦ inl (same ∙ kept)
        | inr (e, raw, h, p, sent) ↦ inr (_, (e, raw, h, p, refl), same ∙ sent)
      ]

  -- The calls that a run begins, with the gateway that each one finds; the last one first.
  abbrev pub calls : (s u : Flight) → Reach w s u → List (Call × Gateway)
  calls s u (start _) = []
  calls s u (more _ t _ r (begins q v)) = (q, t.gateway) ∷ calls s t r
  calls s u (more _ t _ r (answers _ _ _ _ _)) = calls s t r
  calls s u (more _ t _ r (registers _ _)) = calls s t r
  calls s u (more _ t _ r (swaps _ _)) = calls s t r
  calls s u (more _ t _ r (lists _ _ _)) = calls s t r
  calls s u (more _ t _ r (flushes _ _)) = calls s t r

  -- These calls bring one list of requests to another: each of them adds no request, or the one that
  -- it is allowed to send at the gateway that it finds.
  pub data Sends : List (Call × Gateway) → List Sent → List Sent → Type 0 where
    nothing : (ms : List Sent) → Sends [] ms ms
    sends_none :
        (q : Call) (g : Gateway) (qs : List (Call × Gateway)) (ms ns : List Sent)
        → (begin w q g).1.sent ≡ g.sent
        → Sends qs ms ns
        → Sends ((q, g) ∷ qs) ms ns
    sends_one :
        (q : Call) (g : Gateway) (m : Sent) (qs : List (Call × Gateway)) (ms ns : List Sent)
        → Allows q g m
        → (begin w q g).1.sent ≡ m ∷ g.sent
        → Sends qs ms ns
        → Sends ((q, g) ∷ qs) ms (m ∷ ns)

  -- However calls overlap, with answers in any order and with changes of the registry and of the
  -- policies in between: the requests that go out in a run are those of the calls that the run
  -- begins, in their order. Each such call sends no request, or one that was allowed by the registry
  -- and the policies that it found when it began, to an enabled server that its name resolves to,
  -- with the arguments redacted; nothing else sends any.
  pub reach-sends :
      (s u : Flight) (r : Reach w s u) → Sends (calls s u r) s.gateway.sent u.gateway.sent
  reach-sends s u (start _) = nothing s.gateway.sent
  reach-sends s u (more _ t _ r (begins q _)) = elim (begin-sends q t.gateway) [
    | inl kept ↦ subst (Sends ((q, t.gateway) ∷ calls s t r) s.gateway.sent) (sym kept) (
        sends_none q t.gateway (calls s t r) s.gateway.sent t.gateway.sent kept (reach-sends s t r))
    | inr (m, a, sent) ↦ subst (Sends ((q, t.gateway) ∷ calls s t r) s.gateway.sent) (sym sent) (
        sends_one q t.gateway m (calls s t r) s.gateway.sent t.gateway.sent a sent
          (reach-sends s t r))
  ]
  reach-sends s u (more _ t _ r (answers p rest reply _ k)) =
      subst (Sends (calls s t r) s.gateway.sent) (sym (answer-sent p reply t.gateway))
        (reach-sends s t r)
  reach-sends s u (more _ t _ r (registers n _)) = reach-sends s t r
  reach-sends s u (more _ t _ r (swaps n _)) = reach-sends s t r
  reach-sends s u (more _ t _ r (lists tag now _)) =
      subst (Sends (calls s t r) s.gateway.sent) (sym (build_manifest-sent tag now t.gateway))
        (reach-sends s t r)
  reach-sends s u (more _ t _ r (flushes committed _)) = reach-sends s t r
