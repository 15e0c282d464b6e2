-- ===== src/Citations.antt =====
-- agent/citations.py: which answers may stand without citations, and which are replaced.
pub mod Sound
use agentic_rag_backend.Base.{
  ℕ, suc, ◌+◌, ◌*◌, Bool, true, false, ◌||◌, not, Option, none, some, List, [], ◌∷◌, ltb, leb, ◌==◌,
  if◌then◌else◌, length, keep_if, any,
}
use agentic_rag_backend.Base.Text.{Text, Unicode, codes, lower, contains}

-- The digits at the front of a text, as a number, `some` if there is one at least, and the rest.
module _ (u : Unicode) where
  unfoldable pub read_digits : Option ℕ → Text → Option ℕ × Text
  read_digits n [] = (n, [])
  read_digits n (c ∷ t) = elim (u.digit c) [
    | none ↦ (n, c ∷ t)
    | some d ↦ read_digits (some (elim n [ none ↦ d | some m ↦ m * 10 + d ])) t
  ]

  -- The number of a citation `[n]`, behind its bracket.
  unfoldable pub citation_at : Text → Option ℕ
  unfolding read_digits
  citation_at t =
      let (n, rest) = read_digits none t in
      elim rest [ [] ↦ none | c ∷ _ ↦ (if c == b']' then n else none) ]

  -- `extract_citations`. A match holds one bracket `[` only, so matches never overlap.
  unfoldable pub extract_citations : Text → List ℕ
  unfolding citation_at
  extract_citations [] = []
  extract_citations (c ∷ t) =
      let rest = extract_citations t in
      let found : List ℕ = elim (citation_at t) [ none ↦ rest | some n ↦ n ∷ rest ] in
      if c == b'[' then found else rest

  -- `len(re.findall(r"\\w+", text))`; the flag says that a word is being read.
  unfoldable pub count_words : Bool → Text → ℕ
  count_words inside [] = 0
  count_words inside (c ∷ t) =
      let word = count_words true t in
      let other = count_words false t in
      if u.is_word c then (if inside then word else suc word) else other

  abbrev pub abstain_markers : List Text
  abstain_markers =
      codes "don't have"
      ∷ codes "do not have"
      ∷ codes "couldn't find"
      ∷ codes "could not find"
      ∷ codes "no information"
      ∷ codes "not able to"
      ∷ codes "outside my scope"
      ∷ codes "out of scope"
      ∷ codes "can only answer"
      ∷ codes "reach out to"
      ∷ codes "contact the relevant"
      ∷ []

  -- `_looks_like_abstention`
  unfoldable pub looks_like_abstention : Text → Bool
  looks_like_abstention text = any (λ marker. contains marker (lower u text)) abstain_markers

  -- `_is_substantive`
  unfoldable pub is_substantive : Text → Bool
  is_substantive text = leb 12 (count_words false text)

-- The reason of a verdict. `fabricated` lists the citations out of range.
pub data Reason : Type 0 where
  fabricated : List ℕ → Reason
  cited_ok exempt_non_answer uncited_substantive_answer : Reason

unfoldable pub out_of_range : ℕ → ℕ → Bool
out_of_range n_chunks c = ltb c 1 || ltb n_chunks c

abbrev pub no_items : List ℕ → Bool
no_items [] = true
no_items (_ ∷ _) = false

abbrev pub abstain_message : Text
abstain_message =
    codes
      "I don't have enough grounded information in the knowledge base to answer that accurately. Please rephrase, or reach out to the relevant team for the most reliable answer."

module _ (u : Unicode) where
  unfoldable pub validate_citations : Text → ℕ → Bool × Reason
  validate_citations text n_chunks =
      let cites = extract_citations u text in
      let bad = keep_if (out_of_range n_chunks) cites in
      if not (no_items bad)
      then (false, fabricated bad)
      else if not (no_items cites)
      then (true, cited_ok)
      else if looks_like_abstention u text || not (is_substantive u text)
      then (true, exempt_non_answer)
      else if ltb 0 n_chunks
      then (false, uncited_substantive_answer)
      else (true, cited_ok)

  -- `enforce`; of the chunks only their number is read.
  unfoldable pub enforce : Text → ℕ → Text × Reason
  enforce text n_chunks =
      let (accepted, reason) = validate_citations text n_chunks in
      if accepted then (text, reason) else (abstain_message, reason)
