-- ===== src/Client/Sharing/Tests.antt =====
-- Two calls on one session that is lost.
use mcp_gateway_python.Prelude.{◌+◌, none, some, [], ◌∷◌, ◌≡◌, refl}
use mcp_gateway_python.Client.Sharing.{
  Shared, get_session, send_on, open_session, established, handshake_failed, lost, reset_session,
  send, first, later, sends, arrives, resets, Reach, start, more, IsAccounted, IsOpened, down,
  Reach-IsAccounted,
}

abbrev fresh : Shared
fresh = record { session = none; opened = 0; closed = []; in_use = []; dropped = 0 }

-- Both calls have sent their requests.
abbrev both : Shared
both = record { session = some 0; opened = 1; closed = []; in_use = 0 ∷ 0 ∷ []; dropped = 0 }

-- The first one has failed, and has sent its request again on a new session.
abbrev again : Shared
again = record { session = some 1; opened = 2; closed = 0 ∷ []; in_use = 1 ∷ 0 ∷ []; dropped = 0 }

-- The second one has failed as well, and its reset has closed the new session, on which the first one
-- awaits its answer.
abbrev cut : Shared
cut = record { session = none; opened = 2; closed = 1 ∷ 0 ∷ []; in_use = 1 ∷ []; dropped = 0 }

both_sent : Reach fresh both
unfolding send get_session send_on open_session
both_sent =
    more fresh (send established fresh) both
      (more fresh fresh (send established fresh) (start fresh) (sends established fresh))
      (sends established (send established fresh))

sent_again : Reach fresh again
unfolding send get_session send_on open_session reset_session
sent_again =
    let left : Shared = record both { in_use = 0 ∷ [] } in
    let reset = reset_session left in
    more fresh reset again
      (more fresh left reset
        (more fresh both left both_sent (arrives 0 (0 ∷ []) both (first 0 (0 ∷ [])))) (resets left))
      (sends established reset)

cuts : Reach fresh cut
unfolding reset_session
cuts =
    let left : Shared = record again { in_use = 1 ∷ [] } in
    more fresh left cut
      (more fresh again left sent_again
        (arrives 0 (1 ∷ []) again (later 0 1 (0 ∷ []) [] (first 0 []))))
      (resets left)

-- The next call connects, and its handshake fails.
abbrev stranded : Shared
stranded = record cut { dropped = 1 }

strands : Reach fresh stranded
unfolding send get_session send_on open_session
strands = more fresh cut stranded cuts (sends handshake_failed cut)

Reach-IsAccounted_example :
    IsAccounted stranded
    × IsOpened stranded
    × ((reset_session stranded).closed ≡ down 2)
    × (stranded.dropped ≡ lost fresh stranded strands + 0)
Reach-IsAccounted_example = Reach-IsAccounted fresh stranded strands refl tt
