-- ===== src/Guardrails/Output.antt =====
-- The output filters of agent/guardrails.py.
use agentic_rag_backend.Base.{
  Bool, Option, none, some, [], ◌∷◌, ◌&&◌, not, leb, if◌then◌else◌, keep_if, any,
}
use agentic_rag_backend.Base.Text.{Text, Unicode, codes, strip, is_empty, join, splitlines}
use agentic_rag_backend.Base.Regex.{search, sub}
use agentic_rag_backend.Guardrails.Patterns.{cnic_re, card_re, key_re, token_re, leak_re}
use agentic_rag_backend.Guardrails.Input.{Tunables}

-- `[ऀ-ॿ]`, the Devanagari block
unfoldable pub contains_devanagari : Text → Bool
contains_devanagari = any (λ c. leb 0x900 c && leb c 0x97f)

abbrev pub leak_message : Text
leak_message = codes "Sorry, I can't answer that question right now."

module _ (u : Unicode) where
  unfoldable pub redact_pii : Text → Text
  redact_pii text = sub u (token_re u) (codes "[REDACTED-TOKEN]") (
      sub u (key_re u) (codes "[REDACTED-KEY]") (
        sub u (card_re u) (codes "[REDACTED-CARD]")
          (sub u (cnic_re u) (codes "[REDACTED-CNIC]") text)))

  unfoldable pub scrub_leaks : Text → Text
  scrub_leaks text =
      let safe_lines = keep_if (λ ln. not (search u (leak_re u) ln)) (splitlines text) in
      let cleaned = strip u (join (10 ∷ []) safe_lines) in
      if search u (leak_re u) text
      then (if is_empty cleaned then leak_message else cleaned)
      else text

  -- `enforce_roman_urdu`; the model's answer is a parameter, `none` if the call raises.
  unfoldable pub enforce_roman_urdu : Tunables → (Text → Option Text) → Text → Text
  enforce_roman_urdu k transliterate text =
      if k.enforce_roman_urdu && contains_devanagari text
      then elim (transliterate text) [
        | none ↦ text
        | some reply ↦
            let converted = strip u reply in
            (if is_empty converted
              then text
              else if contains_devanagari converted
              then text
              else converted)
      ]
      else text

  unfoldable pub apply_output_guardrails : Tunables → (Text → Option Text) → Text → Text
  apply_output_guardrails k transliterate text =
      if k.guardrails_enabled
      then enforce_roman_urdu k transliterate (redact_pii (scrub_leaks text))
      else text
