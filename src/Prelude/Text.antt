-- ===== src/Prelude/Text.antt =====
-- Texts as the source takes them apart: `startswith`, slices, `partition`, `in`, `lower`.
use Prim.Native.Nat.{ℕ, zero, suc, ◌+◌}
use Prim.Native.Char.{Char, code}
use Prim.Native.String
use Prim.Native.String.{String}
use mathlib.Core.Path.{◌≡◌, refl, ap, ◌∙◌}
use mathlib.Core.Bool.{Bool, true, false, ◌&&◌, ◌||◌}
use mathlib.Core.List.{List, [], ◌∷◌}
use native.Mathlib.Omega.{arith}
use text.Mathlib.TextLemmas.{nil-append, cons-append}
use mcp_gateway_python.Prelude.Tests.{eqb, leb, if◌then◌else◌}

-- Concatenation, which an f-string spells by writing its parts side by side.
infixr 65 ◌<>◌
abbrev pub ◌<>◌ : String → String → String
s <> t = String.◌++◌ s t

-- `len(s)`, in characters
unfoldable pub chars : String → ℕ
chars String.[] = 0
chars (String.◌∷◌ c s) = suc (chars s)

-- `s[n:]`
unfoldable pub drop_chars : ℕ → String → String
drop_chars zero s = s
drop_chars (suc n) String.[] = String.[]
drop_chars (suc n) (String.◌∷◌ c s) = drop_chars n s

-- `s[:n]`
unfoldable pub take_chars : ℕ → String → String
take_chars zero s = String.[]
take_chars (suc n) String.[] = String.[]
take_chars (suc n) (String.◌∷◌ c s) = String.◌∷◌ c (take_chars n s)

-- `s.rstrip(d)`, for the one character of code `d`
unfoldable pub rstrip : ℕ → String → String
rstrip d String.[] = String.[]
rstrip d (String.◌∷◌ c s) =
    let r = rstrip d s in
    elim r [
      | String.[] ↦ if eqb (code c) d then String.[] else String.◌∷◌ c String.[]
      | rest ↦ String.◌∷◌ c rest
    ]

-- Python's white space, among the characters of an HTTP header, which is decoded as Latin-1.
abbrev pub is_space : ℕ → Bool
is_space n = (leb 9 n && leb n 13) || (leb 28 n && leb n 32) || eqb n 133 || eqb n 160

unfoldable pub lstrip_space : String → String
lstrip_space String.[] = String.[]
lstrip_space (String.◌∷◌ c s) =
    let rest = lstrip_space s in if is_space (code c) then rest else String.◌∷◌ c s

unfoldable pub rstrip_space : String → String
rstrip_space String.[] = String.[]
rstrip_space (String.◌∷◌ c s) = elim (rstrip_space s) [
  | String.[] ↦ if is_space (code c) then String.[] else String.◌∷◌ c String.[]
  | rest ↦ String.◌∷◌ c rest
]

-- `s.strip()`
unfoldable pub strip : String → String
unfolding lstrip_space rstrip_space
strip s = rstrip_space (lstrip_space s)

-- `s.startswith(p)`
unfoldable pub starts_with : String → String → Bool
starts_with s String.[] = true
starts_with String.[] (String.◌∷◌ d p) = false
starts_with (String.◌∷◌ c s) (String.◌∷◌ d p) = eqb (code c) (code d) && starts_with s p

-- `d in s`, for the one character of code `d`
unfoldable pub has_char : ℕ → String → Bool
has_char d String.[] = false
has_char d (String.◌∷◌ c s) = eqb (code c) d || has_char d s

-- The parts of `s.partition(d)` before and after the first `d`.
unfoldable pub before : ℕ → String → String
before d String.[] = String.[]
before d (String.◌∷◌ c s) = if eqb (code c) d then String.[] else String.◌∷◌ c (before d s)

unfoldable pub after : ℕ → String → String
after d String.[] = String.[]
after d (String.◌∷◌ c s) = if eqb (code c) d then s else after d s

module _ (d : Char) (t : String) where
  pub has_char-append_sep : (p : String) → has_char (code d) (p <> String.◌∷◌ d t) ≡ true
  unfolding has_char
  has_char-append_sep String.[] = rw nil-append (ground arith)
  has_char-append_sep (String.◌∷◌ c p) = rw cons-append (ground (arith, has_char-append_sep p))

  pub before-append_sep :
      (p : String) → has_char (code d) p ≡ false → before (code d) (p <> String.◌∷◌ d t) ≡ p
  unfolding has_char before
  before-append_sep String.[] h = rw nil-append (ground arith)
  before-append_sep (String.◌∷◌ c p) h = rw cons-append (ground (arith, before-append_sep p))

  pub after-append_sep :
      (p : String) → has_char (code d) p ≡ false → after (code d) (p <> String.◌∷◌ d t) ≡ t
  unfolding has_char after
  after-append_sep String.[] h = rw nil-append (ground arith)
  after-append_sep (String.◌∷◌ c p) h = rw cons-append (ground (arith, after-append_sep p))

  -- A text with a prefix and a character behind it, and what is left when both are cut off.
  pub drop_chars-append_sep : (p : String) → drop_chars (chars p + 1) (p <> String.◌∷◌ d t) ≡ t
  unfolding drop_chars chars
  drop_chars-append_sep String.[] = rw nil-append refl
  drop_chars-append_sep (String.◌∷◌ c p) =
      let e : suc (chars p) + 1 ≡ suc (chars p + 1) = omega arith in
      rw (cons-append, e) (drop_chars-append_sep p)

  pub starts_with-append_sep :
      (p : String) → starts_with (p <> String.◌∷◌ d t) (p <> String.◌∷◌ d String.[]) ≡ true
  unfolding starts_with
  starts_with-append_sep String.[] = rw (nil-append, nil-append) (ground arith)
  starts_with-append_sep (String.◌∷◌ c p) =
      rw (cons-append, cons-append) (ground (arith, starts_with-append_sep p))

abbrev pub dot : ℕ
dot = b'.'

pub dot-append : (t : String) → "." <> t ≡ String.◌∷◌ "." t
dot-append t = cons-append "." String.[] t ∙ ap (λ s. String.◌∷◌ "." s) (nil-append t)

-- `s.lower()`, on ASCII, as code points
unfoldable pub lower : String → List ℕ
lower String.[] = []
lower (String.◌∷◌ c s) =
    (if leb b'A' (code c) && leb (code c) b'Z' then code c + 32 else code c) ∷ lower s

unfoldable pub prefix_of : List ℕ → List ℕ → Bool
prefix_of [] s = true
prefix_of (d ∷ p) [] = false
prefix_of (d ∷ p) (c ∷ s) = eqb c d && prefix_of p s

-- `p in s`
unfoldable pub is_in : List ℕ → List ℕ → Bool
unfolding prefix_of
is_in p [] = prefix_of p []
is_in p (c ∷ s) = prefix_of p (c ∷ s) || is_in p s
