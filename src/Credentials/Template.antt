-- ===== src/Credentials/Template.antt =====
-- Expansion against a reference: what a template means.
use text.Mathlib.TextLemmas.{nil-append, cons-append, append_assoc, append-nil}
use mcp_gateway_python.Prelude.{
  String, List, [], ◌∷◌, ◌≡◌, refl, false, get_or, arith, ◌∙◌, ap, ◌==◌,
}
use mcp_gateway_python.Prelude.Text.{◌<>◌, has_char}
use mcp_gateway_python.Credentials.Expand.{
  Environ, plain, in_name, substitute, expand_from, resolve_env,
}

-- A piece of a template: a text, or a variable.
pub data Part : Type 0 where
  literal : String → Part
  variable : String → Part

-- A text has no `$`; a variable's name is not empty and has no `}`.
abbrev pub IsPart : Part → Type 0
IsPart (literal t) = has_char b'$' t ≡ false
IsPart (variable n) = (has_char b'}' n ≡ false) × ((n == "") ≡ false)

abbrev pub AreParts : List Part → Type 0
AreParts [] = Unit {0}
AreParts (p ∷ ps) = IsPart p × AreParts ps

-- How a template is written.
abbrev pub written : List Part → String
written [] = ""
written (literal t ∷ ps) = t <> written ps
written (variable n ∷ ps) = "${" <> n <> "}" <> written ps

-- What it stands for: a variable that is not set for nothing.
abbrev pub meaning : Environ → List Part → String
meaning environ [] = ""
meaning environ (literal t ∷ ps) = t <> meaning environ ps
meaning environ (variable n ∷ ps) = get_or (environ n) "" <> meaning environ ps

module _ (environ : Environ) where
  expand_text :
      (t rest : String)
      → has_char b'$' t ≡ false
      → expand_from environ plain (t <> rest) ≡ t <> expand_from environ plain rest
  unfolding expand_from has_char
  expand_text String.[] rest h = rw (nil-append, nil-append) refl
  expand_text (String.◌∷◌ c t) rest h =
      rw (cons-append, cons-append) (ground (arith, expand_text t rest))

  expand_name :
      (n acc rest : String)
      → has_char b'}' n ≡ false
      → expand_from environ (in_name acc) (n <> "}" <> rest)
        ≡ substitute environ (acc <> n) <> expand_from environ plain rest
  unfolding expand_from has_char
  expand_name String.[] acc rest h =
      rw (nil-append, append-nil) (rw cons-append (rw nil-append refl))
  expand_name (String.◌∷◌ c n) acc rest h =
      let joined : (acc <> String.◌∷◌ c "") <> n ≡ acc <> String.◌∷◌ c n =
        append_assoc acc (String.◌∷◌ c "") n ∙ rw (cons-append, nil-append) refl in
      rw (cons-append, ← joined) (ground (arith, expand_name n (acc <> String.◌∷◌ c "") rest))

  expand_variable :
      (n rest : String)
      → IsPart (variable n)
      → expand_from environ plain ("${" <> n <> "}" <> rest)
        ≡ get_or (environ n) "" <> expand_from environ plain rest
  unfolding expand_from
  expand_variable n rest h =
      let inside = expand_name n "" rest h.0 in
      let found : substitute environ ("" <> n) ≡ get_or (environ n) "" =
        unfold substitute in rw nil-append (ground arith) in
      rw cons-append (rw cons-append (rw nil-append (inside ∙ rw found refl)))

  -- Of a template whose texts have no `$` and whose names are not empty and have no `}`, the expansion
  -- is what the template stands for, with nothing for a variable that is not set.
  pub resolve_env-written :
      (ps : List Part) → AreParts ps → resolve_env environ (written ps) ≡ meaning environ ps
  unfolding resolve_env expand_from
  resolve_env-written [] h = refl
  resolve_env-written (literal t ∷ ps) h =
      expand_text t (written ps) h.0 ∙ ap (λ s. t <> s) (resolve_env-written ps h.1)
  resolve_env-written (variable n ∷ ps) h =
      expand_variable n (written ps) h.0
      ∙ ap (λ s. get_or (environ n) "" <> s) (resolve_env-written ps h.1)
