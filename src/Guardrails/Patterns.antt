-- ===== src/Guardrails/Patterns.antt =====
-- The patterns of agent/guardrails.py.
use Prim.Native.String.{String}
use agentic_rag_backend.Base.{true, ◌||◌, ◌&&◌, not, List, [], ◌∷◌, leb, ◌==◌, none, some}
use agentic_rag_backend.Base.Text.{Unicode, codes}
use agentic_rag_backend.Base.Regex.{
  Re, chr, star, boundary, opt, plus, times, up_to, any_of, all_of, lit, lit_ci,
}

module _ (u : Unicode) where
  -- A word of a pattern under `re.IGNORECASE`.
  unfoldable pub word : String → Re
  word s = lit_ci u (codes s)

  blank : Re
  blank = chr u.is_space

  blanks : Re
  unfolding blank
  blanks = plus blank

  -- `.`
  dot : Re
  dot = chr (λ c. not (c == 10))

  -- `(w\s+)?`
  maybe : String → Re
  unfolding word blanks blank
  maybe w = opt (all_of (word w ∷ blanks ∷ []))

  unfoldable pub words : List String → Re
  unfolding word
  words [] = chr (λ _. not true)
  words (w ∷ []) = word w
  words (w ∷ v ∷ ws) = any_of (word w ∷ words (v ∷ ws) ∷ [])

  -- `_INJECTION_RE`
  unfoldable pub injection_re : Re
  unfolding word words maybe blank blanks dot
  injection_re = any_of (
      all_of (
        boundary
        ∷ word "ignore"
        ∷ blanks
        ∷ maybe "all"
        ∷ words ("previous" ∷ "above" ∷ "prior" ∷ [])
        ∷ blanks
        ∷ any_of (
            word "instructions"
            ∷ all_of (word "prompt" ∷ opt (word "s") ∷ [])
            ∷ all_of (word "rule" ∷ opt (word "s") ∷ [])
            ∷ [])
        ∷ [])
      ∷ all_of (
          boundary
          ∷ word "disregard"
          ∷ blanks
          ∷ maybe "the"
          ∷ words ("previous" ∷ "above" ∷ "system" ∷ [])
          ∷ boundary
          ∷ [])
      ∷ all_of (
          boundary
          ∷ words ("reveal" ∷ "show" ∷ "print" ∷ "repeat" ∷ "tell" ∷ [])
          ∷ blanks
          ∷ maybe "me"
          ∷ maybe "your"
          ∷ maybe "system"
          ∷ any_of (
              word "prompt"
              ∷ all_of (word "instruction" ∷ opt (word "s") ∷ [])
              ∷ all_of (word "rule" ∷ opt (word "s") ∷ [])
              ∷ [])
          ∷ [])
      ∷ all_of (
          boundary
          ∷ word "what"
          ∷ blanks
          ∷ words ("is" ∷ "are" ∷ [])
          ∷ blanks
          ∷ word "your"
          ∷ blanks
          ∷ maybe "system"
          ∷ any_of (word "prompt" ∷ all_of (word "instruction" ∷ opt (word "s") ∷ []) ∷ [])
          ∷ [])
      ∷ all_of (
          boundary
          ∷ word "you"
          ∷ blanks
          ∷ word "are"
          ∷ blanks
          ∷ word "now"
          ∷ boundary
          ∷ star dot
          ∷ boundary
          ∷ words ("dan" ∷ "developer mode" ∷ "jailbreak" ∷ "unrestricted" ∷ [])
          ∷ boundary
          ∷ [])
      ∷ all_of (boundary ∷ word "developer" ∷ blanks ∷ word "mode" ∷ boundary ∷ [])
      ∷ all_of (boundary ∷ word "jailbreak" ∷ boundary ∷ [])
      ∷ all_of (
          boundary
          ∷ word "act"
          ∷ blanks
          ∷ word "as"
          ∷ blanks
          ∷ opt (all_of (word "a" ∷ opt (word "n") ∷ blanks ∷ []))
          ∷ words ("unrestricted" ∷ "uncensored" ∷ "evil" ∷ [])
          ∷ boundary
          ∷ [])
      ∷ all_of (
          boundary
          ∷ word "pretend"
          ∷ blanks
          ∷ any_of (
              all_of (word "you" ∷ blanks ∷ word "are" ∷ [])
              ∷ all_of (word "to" ∷ blanks ∷ word "be" ∷ [])
              ∷ [])
          ∷ boundary
          ∷ star dot
          ∷ boundary
          ∷ any_of (
              all_of (word "no" ∷ blanks ∷ word "rules" ∷ [])
              ∷ all_of (word "without" ∷ blanks ∷ word "restrictions" ∷ [])
              ∷ [])
          ∷ boundary
          ∷ [])
      ∷ all_of (
          boundary
          ∷ words ("bypass" ∷ "override" ∷ "disable" ∷ [])
          ∷ blanks
          ∷ maybe "your"
          ∷ any_of (
              word "safety"
              ∷ all_of (word "guardrail" ∷ opt (word "s") ∷ [])
              ∷ all_of (word "filter" ∷ opt (word "s") ∷ [])
              ∷ all_of (word "restriction" ∷ opt (word "s") ∷ [])
              ∷ [])
          ∷ [])
      ∷ all_of (
          boundary
          ∷ word "print"
          ∷ blanks
          ∷ word "the"
          ∷ blanks
          ∷ words ("api" ∷ "secret" ∷ "access" ∷ [])
          ∷ star blank
          ∷ word "key"
          ∷ [])
      ∷ all_of (
          boundary
          ∷ any_of (
              all_of (word "system" ∷ star blank ∷ word "prompt" ∷ [])
              ∷ all_of (word "initial" ∷ blanks ∷ word "instructions" ∷ [])
              ∷ [])
          ∷ boundary
          ∷ [])
      ∷ [])

  -- `_ABUSE_RE`
  unfoldable pub abuse_re : Re
  unfolding word words blank
  abuse_re = any_of (
      all_of (
        boundary
        ∷ words ("fuck" ∷ "shit" ∷ "bitch" ∷ "asshole" ∷ "gandu" ∷ "madarchod" ∷ "behnchod" ∷ [])
        ∷ boundary
        ∷ [])
      ∷ all_of (boundary ∷ word "haraam" ∷ star blank ∷ word "zada" ∷ boundary ∷ [])
      ∷ all_of (boundary ∷ word "kut" ∷ opt (word "t") ∷ word "a" ∷ boundary ∷ [])
      ∷ [])

  -- The role markers that `check_input` takes out: `(?i)\b(system|assistant|developer)\s*:`
  unfoldable pub role_marker_re : Re
  unfolding words word blank
  role_marker_re = all_of (
      boundary
      ∷ words ("system" ∷ "assistant" ∷ "developer" ∷ [])
      ∷ star blank
      ∷ chr (λ c. c == b':')
      ∷ [])

  digit : Re
  digit = chr (λ c. elim (u.digit c) [ none ↦ not true | some _ ↦ true ])

  -- `[A-Za-z0-9_\-]`
  token_char : Re
  token_char = chr (λ c.
      (leb b'A' c && leb c b'Z')
      || (leb b'a' c && leb c b'z')
      || (leb b'0' c && leb c b'9')
      || c == b'_'
      || c == b'-')

  -- The patterns of `_PII_PATTERNS`: CNIC, card, API key, token.
  unfoldable pub cnic_re : Re
  unfolding digit
  cnic_re = all_of (
      boundary
      ∷ times 5 digit
      ∷ lit (codes "-")
      ∷ times 7 digit
      ∷ lit (codes "-")
      ∷ digit
      ∷ boundary
      ∷ [])

  unfoldable pub card_re : Re
  unfolding digit
  card_re =
      let d = all_of (digit ∷ opt (chr (λ c. c == b' ' || c == b'-')) ∷ []) in
      all_of (boundary ∷ times 13 d ∷ up_to 6 d ∷ boundary ∷ [])

  unfoldable pub key_re : Re
  unfolding token_char
  key_re =
      all_of (boundary ∷ lit (codes "sk-") ∷ times 20 token_char ∷ star token_char ∷ boundary ∷ [])

  unfoldable pub token_re : Re
  unfolding token_char
  token_re =
      let part = all_of (times 10 token_char ∷ star token_char ∷ []) in
      all_of (
        boundary
        ∷ lit (codes "eyJ")
        ∷ part
        ∷ lit (codes ".")
        ∷ part
        ∷ lit (codes ".")
        ∷ part
        ∷ boundary
        ∷ [])

  -- `_LEAK_PATTERNS`
  unfoldable pub leak_re : Re
  unfolding words word
  leak_re = words (
      "you are an enterprise knowledge assistant" ∷ "you are a knowledge assistant"
      ∷ "_system_prompt" ∷ "system prompt" ∷ "my instructions are" ∷ [])
