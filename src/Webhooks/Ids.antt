-- ===== src/Webhooks/Ids.antt =====
-- `_next_id`: the ids of events, which carry the second of the event and the dispatcher's counter.
-- The decimal digits of a number are a parameter.
use mcp_gateway_python.Webhooks.Dispatcher.{WebhookDispatcher}
use text.Mathlib.TextLemmas.{nil-append, cons-append}
use mcp_gateway_python.Prelude.{
  refl, ap, ◌∙◌, sym, ℕ, ◌+◌, ◌≡◌, String, List, ◌∷◌, [], false, IsDistinct, ◌<◌, elem, Bool-cases,
  ◌==◌, inl, arith, eq_iff, inr,
}
use mcp_gateway_python.Prelude.Text.{◌<>◌, has_char, after, after-append_sep}

unfoldable pub next_id : (ℕ → String) → ℕ → WebhookDispatcher → String × WebhookDispatcher
next_id digits now d =
    ("evt_" <> digits now <> "_" <> digits (d.seq + 1), record d { seq = d.seq + 1 })

-- The ids of events at these seconds.
unfoldable pub ids : (ℕ → String) → List ℕ → WebhookDispatcher → List String
unfolding next_id
ids digits [] d = []
ids digits (now ∷ times) d = let (id, d') = next_id digits now d in id ∷ ids digits times d'

abbrev pub underscore : ℕ
underscore = b'_'

-- Digits have no underscore, and tell the number.
abbrev pub AreDigits : (ℕ → String) → Type 0
AreDigits digits =
    ((n : ℕ) → has_char underscore (digits n) ≡ false) × ((m n : ℕ) → digits m ≡ digits n → m ≡ n)

underscore-append : (t : String) → "_" <> t ≡ String.◌∷◌ "_" t
underscore-append t = cons-append "_" String.[] t ∙ ap (λ s. String.◌∷◌ "_" s) (nil-append t)

evt-append : (t : String) → "evt_" <> t ≡ "evt" <> String.◌∷◌ "_" t
evt-append t =
    let x = String.◌∷◌ "_" t in
    rw
      (
        cons-append "e" "vt_" t,
        cons-append "v" "t_" t,
        cons-append "t" "_" t,
        underscore-append t,
        cons-append "e" "vt" x,
        cons-append "v" "t" x,
        cons-append "t" String.[] x,
        nil-append x,
      )
      refl

-- The counter stands behind the second underscore.
next_id-counter :
    (digits : ℕ → String) (now : ℕ) (d : WebhookDispatcher)
    → AreDigits digits
    → after underscore (after underscore (next_id digits now d).0) ≡ digits (d.seq + 1)
unfolding next_id has_char
next_id-counter digits now d h =
    let count = digits (d.seq + 1) in
    let rest = digits now <> "_" <> count in
    let outer : after underscore ("evt_" <> rest) ≡ rest =
      ap (after underscore) (evt-append rest) ∙ after-append_sep "_" rest "evt" refl in
    let inner : after underscore rest ≡ count =
      ap (λ t. after underscore (digits now <> t)) (underscore-append count)
      ∙ after-append_sep "_" count (digits now) (h.0 now) in
    ap (after underscore) outer ∙ inner

-- An id of a dispatcher does not come again.
later-ids :
    (digits : ℕ → String) (now : ℕ) (times : List ℕ) (d e : WebhookDispatcher)
    → AreDigits digits
    → d.seq < e.seq
    → elem (next_id digits now d).0 (ids digits times e) ≡ false
unfolding ids next_id
later-ids digits now [] d e h lt = refl
later-ids digits now (t ∷ times) d e h lt =
    let first = (next_id digits now d).0 in
    let rest : elem first (ids digits times (next_id digits t e).1) ≡ false =
      later-ids digits now times d (next_id digits t e).1 h (omega arith) in
    elim (Bool-cases (first == (next_id digits t e).0)) [
      | inl same ↦
          let equal : first ≡ (next_id digits t e).0 =
            ground (arith, eq_iff first (next_id digits t e).0) in
          let counts : digits (d.seq + 1) ≡ digits (e.seq + 1) =
            sym (next_id-counter digits now d h)
            ∙ (ap (λ i. after underscore (after underscore i)) equal
                ∙ next_id-counter digits t e h) in
          let level = h.1 (d.seq + 1) (e.seq + 1) counts in absurd (omega arith)
      | inr other ↦ ground arith
    ]

-- One dispatcher never gives two events the same id, whatever the clock says.
pub ids-IsDistinct :
    (digits : ℕ → String) (times : List ℕ) (d : WebhookDispatcher)
    → AreDigits digits
    → IsDistinct (ids digits times d)
unfolding ids next_id
ids-IsDistinct digits [] d h = tt
ids-IsDistinct digits (now ∷ times) d h =
    let d' = (next_id digits now d).1 in
    (later-ids digits now times d d' h (omega arith), ids-IsDistinct digits times d' h)
