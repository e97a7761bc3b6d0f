-- ===== src/Redaction/Strings.antt =====
-- `_redact_string`.
use mcp_gateway_python.Prelude.{
  ℕ, Bool, List, String, Option, false, ◌∷◌, if◌then◌else◌, ltb, some, not, true, ◌==◌, [], elem,
  ◌||◌, eqb, none,
}
use mcp_gateway_python.Prelude.Text.{◌<>◌, drop_chars, take_chars}

pub record RedactionPolicy : Type 0 where
  pub enabled : Bool
  pub entities : List String
  pub redact_requests : Bool
  pub redact_responses : Bool
  -- `replacement.format(entity=entity)`, as a function of the entity
  pub replacement : String → String

pub record Span : Type 0 where
  pub start : ℕ
  pub stop : ℕ
  pub entity_type : String

-- `analyze` is what presidio finds of the listed entities in a text, with `none` for an exception;
-- `subn entity new text` replaces the matches of the entity's pattern and counts them.
pub record Engine : Type 0 where
  pub analyze : Option (List String → String → Option (List Span))
  pub subn : String → String → String → String × ℕ

abbrev pub fallback_entities : List String
fallback_entities = "EMAIL_ADDRESS" ∷ "PHONE_NUMBER" ∷ "CREDIT_CARD" ∷ "US_SSN" ∷ "IP_ADDRESS" ∷ []

-- `sorted(results, key=lambda r: r.start, reverse=True)`, which is stable.
insert_span : Span → List Span → List Span
insert_span s [] = s ∷ []
insert_span s (t ∷ ts) = if ltb s.start t.start then t ∷ insert_span s ts else s ∷ t ∷ ts

unfoldable pub sort_spans : List Span → List Span
unfolding insert_span
sort_spans [] = []
sort_spans (s ∷ ss) = insert_span s (sort_spans ss)

module _ (policy : RedactionPolicy) where
  -- The replacements, in the order of the list.
  unfoldable pub replace_spans : List Span → String → String
  replace_spans [] text = text
  replace_spans (r ∷ rs) text =
      replace_spans rs
        (take_chars r.start text <> policy.replacement r.entity_type <> drop_chars r.stop text)

  is_cons : List Span → Bool
  is_cons [] = false
  is_cons (_ ∷ _) = true

  unfoldable pub presidio_pass :
      Option (List String → String → Option (List Span)) → String → String × Bool
  unfolding is_cons replace_spans
  presidio_pass none text = (text, false)
  presidio_pass (some analyze) text = elim (analyze policy.entities text) [
    | none ↦ (text, false)
    | some results ↦ (replace_spans (sort_spans results) text, is_cons results)
  ]

  -- The loop over the entities that have a pattern.
  unfoldable pub fallback_pass :
      (String → String → String → String × ℕ) → List String → String × Bool → String × Bool
  fallback_pass subn [] out = out
  fallback_pass subn (e ∷ es) (text, changed) =
      let (new_text, n) = subn e (policy.replacement e) text in
      fallback_pass subn es
        (if not (elem e fallback_entities) || eqb n 0 then (text, changed) else (new_text, true))

  unfoldable pub redact_string : Engine → String → String × Bool
  unfolding presidio_pass fallback_pass
  redact_string engine text =
      if (text == "") || not policy.enabled
      then (text, false)
      else fallback_pass engine.subn policy.entities (presidio_pass engine.analyze text)
