-- ===== src/Citations/Sound.antt =====
-- What `validate_citations` accepts.
use agentic_rag_backend.Base.{
  ℕ, ◌≤◌, ◌≡◌, ◌↔◌, ◌⊎◌, inl, inr, refl, true, false, List, [], ◌∷◌, arith, All, keep_if,
  Bool-cases,
}
use agentic_rag_backend.Base.Text.{Text, Unicode}
use agentic_rag_backend.Citations.{
  extract_citations, looks_like_abstention, is_substantive, out_of_range, no_items,
  validate_citations, enforce, abstain_message,
}

abbrev pub InRange : ℕ → ℕ → Type 0
InRange n c = (1 ≤ c) × (c ≤ n)

pub none_out_of_range :
    (n : ℕ) (cites : List ℕ)
    → (no_items (keep_if (out_of_range n) cites) ≡ true) ↔ All (InRange n) cites
unfolding out_of_range
none_out_of_range n [] = (λ _. tt, λ _. refl)
none_out_of_range n (c ∷ cs) =
    let ih = none_out_of_range n cs in
    (λ h. (ground arith, ih.0 (ground arith)), λ (p, q). ground (arith, ih.1 q))

-- Why an answer without any citation may stand.
abbrev pub NeedsNone : Unicode → Text → ℕ → Type 0
NeedsNone u text n =
    (looks_like_abstention u text ≡ true) ⊎ (is_substantive u text ≡ false) ⊎ (n ≡ 0)

module _ (u : Unicode) (text : Text) (n : ℕ) where
  -- An answer is accepted exactly when all its citations name retrieved chunks, and it either has
  -- a citation or needs none: it abstains, or is no substantive answer, or no chunk was retrieved.
  pub validate_citations_iff : ((validate_citations u text n).0 ≡ true) ↔ (
      All (InRange n) (extract_citations u text)
      × ((no_items (extract_citations u text) ≡ false) ⊎ NeedsNone u text n))
  unfolding validate_citations
  validate_citations_iff =
      let range = none_out_of_range n (extract_citations u text) in
      (λ h. (range.0 (ground arith), ground arith), λ (p, q). ground (arith, range.1 p))

  -- What `enforce` returns is the answer as it was, with every citation in range, or else the
  -- abstain message.
  pub enforce_cases :
      (((enforce u text n).0 ≡ text) × All (InRange n) (extract_citations u text))
      ⊎ ((enforce u text n).0 ≡ abstain_message)
  unfolding enforce
  enforce_cases = elim (Bool-cases (validate_citations u text n).0) [
    | inl good ↦ inl (ground arith, (validate_citations_iff.0 good).0)
    | inr bad ↦ inr (ground arith)
  ]
