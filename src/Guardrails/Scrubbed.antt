-- ===== src/Guardrails/Scrubbed.antt =====
-- What `scrub_leaks` of agent/guardrails.py lets through.
use Prim.Native.String.{String}
use agentic_rag_backend.Base.{
  ℕ, ◌≡◌, Bool, true, false, ◌&&◌, ◌||◌, not, List, [], ◌∷◌, any, keep_if,
}
use agentic_rag_backend.Base.Text.{Text, Unicode, codes, splitlines}
use agentic_rag_backend.Base.Regex.{search}
use agentic_rag_backend.Guardrails.Patterns.{leak_re}

abbrev leak_words : List String
leak_words =
    "you are an enterprise knowledge assistant" ∷ "you are a knowledge assistant" ∷ "_system_prompt"
    ∷ "system prompt" ∷ "my instructions are" ∷ []

module _ (u : Unicode) where
  -- The text starts with the word, where case is ignored.
  abbrev hits : Text → Text → Bool
  hits [] t = true
  hits (c ∷ w) [] = false
  hits (c ∷ w) (d ∷ t) = u.same_letter c d && hits w t

  abbrev any_hit : List String → Text → Bool
  any_hit ws t = any (λ w. hits (codes w) t) ws

  -- One of the words is found in the text.
  abbrev leaks : List String → Text → Bool
  leaks ws [] = any_hit ws []
  leaks ws (c ∷ t) = any_hit ws (c ∷ t) || leaks ws t

  -- No word has a line break, and a line break is no variant of a letter.
  module _ (newline : (c : ℕ) → u.same_letter c 10 ≡ true → c ≡ 10) where
    IsSafe : Text → Type 0
    IsSafe t = leaks leak_words t ≡ false

  -- The lines in which no leak is found.
  abbrev pub safe_lines : Text → List Text
  safe_lines text = keep_if (λ ln. not (search u (leak_re u) ln)) (splitlines text)
