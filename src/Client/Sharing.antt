-- ===== src/Client/Sharing.antt =====
-- One session for the calls of a client that overlap. `_get_session` and `_reset_session` hold the
-- client's lock, so that each is one step, also where it awaits the connection; between them, and
-- while a call awaits its answer, other calls take steps. Sessions are numbered as they are opened.
mod Tests
use mathlib.Core.Path.{subst}
use mcp_gateway_python.Prelude.{
  ◌+◌, refl, sym, ap, ◌∙◌, ℕ, suc, none, some, Option, List, [], ◌∷◌, ◌≡◌, All, Option-cases, inl,
  ◌<◌, arith, inr, ◌≤◌,
}
use Prim.Native.Nat.{zero}

-- How opening a session ends: it is established, the transport does not connect, or it does and the
-- handshake fails.
pub data Opening : Type 0 where
  established : Opening
  unreachable : Opening
  handshake_failed : Opening

-- The client's session, how many have been opened, which ones have been closed, the sessions of the
-- calls that await an answer, and how many connections were left open after a failed handshake: the
-- exit stack that would close such a connection is not kept.
pub record Shared : Type 0 where
  pub session : Option ℕ
  pub opened : ℕ
  pub closed : List ℕ
  pub in_use : List ℕ
  pub dropped : ℕ

-- `_open_session`; `none` is an exception.
unfoldable pub open_session : Opening → Shared → Option ℕ × Shared
open_session established s =
    (some s.opened, record s { session = some s.opened; opened = suc s.opened })
open_session unreachable s = (none, s)
open_session handshake_failed s = (none, record s { dropped = suc s.dropped })

-- `_get_session`: a new session if there is none.
unfoldable pub get_session : Opening → Shared → Option ℕ × Shared
unfolding open_session
get_session o s = elim s.session [ some i ↦ (some i, s) | none ↦ open_session o s ]

-- `_reset_session`, and `close`: whatever session there is now is closed.
unfoldable pub reset_session : Shared → Shared
reset_session s = elim s.session [
  | none ↦ s
  | some i ↦ record s { session = none; closed = i ∷ s.closed }
]

-- A call that has got a session sends its request on it.
unfoldable pub send_on : Option ℕ × Shared → Shared
send_on (none, s) = s
send_on (some i, s) = record s { in_use = i ∷ s.in_use }

-- A call gets the session and sends its request on it, unless opening it fails.
unfoldable pub send : Opening → Shared → Shared
unfolding get_session send_on
send o s = send_on (get_session o s)

-- One of the list, and the others.
pub data Takes : ℕ → List ℕ → List ℕ → Type 0 where
  first : (i : ℕ) (is : List ℕ) → Takes i (i ∷ is) is
  later : (i j : ℕ) (is rest : List ℕ) → Takes i is rest → Takes i (j ∷ is) (j ∷ rest)

-- A call sends its request or fails to open a session, the answer or the failure of some request arrives, or a session is reset
-- after a failure or for good.
pub data Step : Shared → Shared → Type 0 where
  sends : (o : Opening) (s : Shared) → Step s (send o s)
  arrives :
      (i : ℕ) (rest : List ℕ) (s : Shared)
      → Takes i s.in_use rest
      → Step s (record s { in_use = rest })
  resets : (s : Shared) → Step s (reset_session s)

pub data Reach : Shared → Shared → Type 0 where
  start : (s : Shared) → Reach s s
  more : (s t u : Shared) → Reach s t → Step t u → Reach s u

-- The numbers below a number, the greatest first.
abbrev pub down : ℕ → List ℕ
down zero = []
down (suc n) = n ∷ down n

-- Each session that has been opened is the client's, or has been closed once, in the order of their
-- opening.
abbrev pub IsAccounted : Shared → Type 0
IsAccounted s = elim s.session [
  | none ↦ s.closed ≡ down s.opened
  | some i ↦ (s.opened ≡ suc i) × (s.closed ≡ down i)
]

-- Requests are on sessions that have been opened.
abbrev pub IsOpened : Shared → Type 0
IsOpened s = All (λ i. i < s.opened) s.in_use

reset_session-IsAccounted : (s : Shared) → IsAccounted s → IsAccounted (reset_session s)
unfolding reset_session
reset_session-IsAccounted s h = elim (Option-cases s.session) [
  | inl n ↦ ground arith
  | inr (i, m) ↦ ground arith
]

All-below : (m n : ℕ) (is : List ℕ) → m ≤ n → All (λ i. i < m) is → All (λ i. i < n) is
All-below m n [] le h = tt
All-below m n (i ∷ is) le h = (omega (arith, h.0), All-below m n is le h.1)

-- A new session, with a request on it.
established_lem :
    (s : Shared)
    → s.session ≡ none
    → IsAccounted s × IsOpened s
    → IsAccounted (send_on (open_session established s))
      × IsOpened (send_on (open_session established s))
unfolding send_on open_session
established_lem s n (a, h) =
    ((refl, rw n at a), (omega arith, All-below s.opened (suc s.opened) s.in_use (omega arith) h))

open_session-IsAccounted :
    (o : Opening) (s : Shared)
    → s.session ≡ none
    → IsAccounted s × IsOpened s
    → IsAccounted (send_on (open_session o s)) × IsOpened (send_on (open_session o s))
unfolding send_on open_session
open_session-IsAccounted established s n h = established_lem s n h
open_session-IsAccounted unreachable s n h = h
open_session-IsAccounted handshake_failed s n h = h

send-IsAccounted :
    (o : Opening) (s : Shared)
    → IsAccounted s × IsOpened s
    → IsAccounted (send o s) × IsOpened (send o s)
unfolding send get_session
send-IsAccounted o s (a, h) = elim (Option-cases s.session) [
  | inl n ↦
      let at : send o s ≡ send_on (open_session o s) = ground arith in
      rw at (open_session-IsAccounted o s n (a, h))
  | inr (i, m) ↦
      let at : send o s ≡ record s { in_use = i ∷ s.in_use } = unfold send_on in ground arith in
      let newest : s.opened ≡ suc i = ground arith in rw at (a, (omega (arith, newest), h))
]

reset_session-IsOpened : (s : Shared) → IsOpened s → IsOpened (reset_session s)
unfolding reset_session
reset_session-IsOpened s h = elim (Option-cases s.session) [
  | inl n ↦ let at : reset_session s ≡ s = ground arith in rw at h
  | inr (i, m) ↦
      let at : reset_session s ≡ record s { session = none; closed = i ∷ s.closed } =
        ground arith in
      rw at h
]

Takes-All :
    (n i : ℕ) (is rest : List ℕ) → Takes i is rest → All (λ j. j < n) is → All (λ j. j < n) rest
Takes-All n i is rest (first _ _) h = h.1
Takes-All n i is rest (later k j ks others t) h = (h.0, Takes-All n k ks others t h.1)

Step-IsAccounted :
    (s t : Shared) → Step s t → IsAccounted s × IsOpened s → IsAccounted t × IsOpened t
Step-IsAccounted s t (sends o _) h = send-IsAccounted o s h
Step-IsAccounted s t (arrives i rest _ k) (a, h) = (a, Takes-All s.opened i s.in_use rest k h)
Step-IsAccounted s t (resets _) (a, h) = (reset_session-IsAccounted s a, reset_session-IsOpened s h)

Reach-keeps : (s t : Shared) → Reach s t → IsAccounted s × IsOpened s → IsAccounted t × IsOpened t
Reach-keeps s t (start _) h = h
Reach-keeps s t (more _ u _ r k) h = Step-IsAccounted u t k (Reach-keeps s u r h)

-- The handshakes that fail in a run: each is that of a call that finds no session.
abbrev pub lost_at : Opening → Option ℕ → ℕ
lost_at handshake_failed none = 1
lost_at _ _ = 0

abbrev pub lost : (s t : Shared) → Reach s t → ℕ
lost s t (start _) = 0
lost s t (more _ u _ r (sends o _)) = lost_at o u.session + lost s u r
lost s t (more _ u _ r (arrives _ _ _ _)) = lost s u r
lost s t (more _ u _ r (resets _)) = lost s u r

dropped-send : (o : Opening) (s : Shared) → (send o s).dropped ≡ lost_at o s.session + s.dropped
unfolding send get_session send_on open_session
dropped-send established s = ground arith
dropped-send unreachable s = ground arith
dropped-send handshake_failed s = ground arith

dropped-reset_session : (s : Shared) → (reset_session s).dropped ≡ s.dropped
unfolding reset_session
dropped-reset_session s = ground arith

dropped-lost : (s t : Shared) (r : Reach s t) → t.dropped ≡ lost s t r + s.dropped
dropped-lost s t (start _) = omega arith
dropped-lost s t (more _ u _ r (sends o _)) = omega (arith, dropped-send o u, dropped-lost s u r)
dropped-lost s t (more _ u _ r (arrives _ _ _ _)) = dropped-lost s u r
dropped-lost s t (more _ u _ r (resets _)) = dropped-reset_session u ∙ dropped-lost s u r

closed-reset_session : (s : Shared) → IsAccounted s → (reset_session s).closed ≡ down s.opened
unfolding reset_session
closed-reset_session s h = elim (Option-cases s.session) [
  | inl n ↦ ground arith
  | inr (i, m) ↦
      let newest : s.opened ≡ suc i = ground arith in
      let older : s.closed ≡ down i = ground arith in
      let at : (reset_session s).closed ≡ i ∷ s.closed = ground arith in
      at ∙ (ap (λ is. i ∷ is) older ∙ sym (ap down newest))
]

-- However calls of one client overlap, if it was so at the start: each session that has been
-- opened, its handshake included, has been closed once, in the order of their opening, but for the
-- newest one, which may be the client's current session; requests are sent on such sessions; and a
-- reset leaves none of them open. A connection whose handshake fails is never closed: exactly one is
-- left open for each such failure, and nothing else leaves one.
pub Reach-IsAccounted :
    (s t : Shared) (r : Reach s t)
    → IsAccounted s
    → IsOpened s
    → IsAccounted t
      × IsOpened t
      × ((reset_session t).closed ≡ down t.opened)
      × (t.dropped ≡ lost s t r + s.dropped)
unfolding reset_session
Reach-IsAccounted s t r a h =
    let (after, still) = Reach-keeps s t r (a, h) in
    (after, still, closed-reset_session t after, dropped-lost s t r)
