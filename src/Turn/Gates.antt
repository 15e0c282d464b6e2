-- ===== src/Turn/Gates.antt =====
-- Which answers the gates let into the answer cache.
use agentic_rag_backend.Base.{
  ℕ, ◌≡◌, refl, Bool, true, false, List, map, if_elim, length, length-map, All, arith, inl, inr,
  Bool-cases, subst, sym, ap,
}
use agentic_rag_backend.Base.Text.{Text, Unicode}
use agentic_rag_backend.Citations.{extract_citations, validate_citations, abstain_message}
use agentic_rag_backend.Citations
use agentic_rag_backend.Citations.Sound.{InRange}
use agentic_rag_backend.Groundedness.{
  Settings, Judge, is_cacheable, is_ok, status_grounded, status_remediated, status_abstained,
  status_error, status_skipped,
}
use agentic_rag_backend.Groundedness
use agentic_rag_backend.Groundedness.Policy.{enforce-Ended, is_ok-InRange, is_ok-accepted}
use agentic_rag_backend.Retrieval.{Floats, ChunkResult, is_low_confidence}
use agentic_rag_backend.Turn.{Deps, Services, is_hybrid, gates}

enforce-ok :
    (u : Unicode) (text : Text) (n : ℕ)
    → is_ok (Citations.enforce u text n).1 ≡ true
    → All (InRange n) (extract_citations u (Citations.enforce u text n).0)
unfolding Citations.enforce
enforce-ok u text n h = elim (Bool-cases (validate_citations u text n).0) [
  | inl accepted ↦ rw accepted (is_ok-InRange u text n (rw accepted at h))
  | inr refused ↦ absurd (ground (arith, is_ok-accepted u text n (rw refused at h)))
]

abstained-not_cacheable : is_cacheable status_abstained ≡ false
unfolding is_cacheable
abstained-not_cacheable = refl

cacheable-InRange :
    (u : Unicode) (settings : Settings) (show : ℕ → Text) (judge : Judge) (answer : Text)
    (chunks : List Text)
    → All (InRange (length chunks)) (extract_citations u answer)
    → is_cacheable (Groundedness.enforce u settings show judge answer chunks).1 ≡ true
    → All
        (InRange (length chunks))
        (extract_citations u (Groundedness.enforce u settings show judge answer chunks).0)
cacheable-InRange u settings show judge answer chunks cited h =
    elim (enforce-Ended u settings show judge answer chunks) [
      | inl (_, same, _) ↦
          subst (λ t. All (InRange (length chunks)) (extract_citations u t)) (sym same) cited
      | inr (inl (_, _, corrects)) ↦ corrects.is_cited.in_range
      | inr (inr (_, _, status, _)) ↦
          absurd (ground (arith, abstained-not_cacheable, ap is_cacheable status))
    ]

module _ (fl : Floats) (u : Unicode) (v : Services fl) where
  -- A response is marked for the cache only after a document search of enough confidence, and then
  -- every citation in it names one of the retrieved chunks.
  pub gates-InRange :
      (response : Text) (deps : Deps fl)
      → (gates fl u v response deps).1 ≡ true
      → (is_hybrid fl u v deps.selected_retrieval_tool ≡ true)
        × (is_low_confidence fl v.min_similarity deps.retrieved_chunks ≡ false)
        × All
            (InRange (length deps.retrieved_chunks))
            (extract_citations u (gates fl u v response deps).0)
  unfolding gates
  gates-InRange response deps h =
      let chunks = deps.retrieved_chunks in
      let cited = Citations.enforce u response (length chunks) in
      let contents = map {A = ChunkResult fl} (λ c. c.content) chunks in
      let P : Text × Bool → Type 0 = λ p.
        p.1 ≡ true
        → (is_hybrid fl u v deps.selected_retrieval_tool ≡ true)
          × (is_low_confidence fl v.min_similarity chunks ≡ false)
          × All (InRange (length chunks)) (extract_citations u p.0) in
      if_elim P (is_hybrid fl u v deps.selected_retrieval_tool)
        (λ hybrid.
          if_elim P (is_low_confidence fl v.min_similarity chunks) (λ _ no. absurd (cc))
            λ confident.
              if_elim P (is_ok cited.1)
                (λ good cacheable. (
                  hybrid,
                  confident,
                  rw (length-map (λ c. c.content) chunks) at (
                      cacheable-InRange u v.grounding v.show_index v.judge cited.0 contents
                        (rw (length-map (λ c. c.content) chunks)
                          (enforce-ok u response (length chunks) good))
                        cacheable),
                ))
                (λ _ no. absurd (cc)))
        (λ _ no. absurd (cc)) h
