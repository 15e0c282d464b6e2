-- ===== src/Groundedness/Policy.antt =====
-- What `enforce` may return, and which of its results may be cached.
use agentic_rag_backend.Base.{
  ℕ, ◌≤◌, ◌≡◌, ◌⊎◌, ◌↔◌, inl, inr, refl, true, false, ◌&&◌, ◌||◌, not, List, [], ◌∷◌, arith, length,
  All, if◌then◌else◌, if_elim,
}
use agentic_rag_backend.Base.Text.{Text, Unicode, strip, is_empty, text_eq, text_eq_iff}
use agentic_rag_backend.Citations.{
  extract_citations, no_items, validate_citations, looks_like_abstention, abstain_message,
}
use agentic_rag_backend.Citations.Sound.{InRange, validate_citations_iff, none_out_of_range}
use agentic_rag_backend.Groundedness.{
  Settings, Judge, assess, applies, enforce, is_salvaged, is_ok, status_grounded, status_remediated,
  status_abstained, status_skipped, status_error,
}

module _ (u : Unicode) where
  pub is_ok-accepted :
      (text : Text) (n : ℕ)
      → is_ok (validate_citations u text n).1 ≡ true
      → (validate_citations u text n).0 ≡ true
  unfolding is_ok validate_citations
  is_ok-accepted text n h = ground arith

  pub is_ok-InRange :
      (text : Text) (n : ℕ)
      → is_ok (validate_citations u text n).1 ≡ true
      → All (InRange n) (extract_citations u text)
  is_ok-InRange text n h = ((validate_citations_iff u text n).0 (is_ok-accepted text n h)).0

  -- A text that stands as an answer: it has a citation, cites retrieved chunks only, and does not
  -- abstain.
  pub record IsCited (text : Text) (n : ℕ) : Type 0 where
    pub written : is_empty text ≡ false
    pub cited : no_items (extract_citations u text) ≡ false
    pub in_range : All (InRange n) (extract_citations u text)
    pub answers : looks_like_abstention u text ≡ false

  -- Where some chunks were retrieved, the tests on a correction are exact.
  is_salvaged_iff : (text : Text) (n : ℕ) → 1 ≤ n → (is_salvaged u text n ≡ true) ↔ IsCited text n
  unfolding is_salvaged is_ok validate_citations
  is_salvaged_iff text n some_chunk =
      let range = none_out_of_range n (extract_citations u text) in
      (
        λ h. record {
          written = ground arith;
          cited = ground arith;
          in_range = range.0 (ground arith);
          answers = ground arith;
        },
        λ c. ground (arith, range.1 c.in_range, c.written, c.cited, c.answers),
      )

module _ (u : Unicode) (settings : Settings) (show : ℕ → Text) (judge : Judge) where
  -- The text is the judge's correction of the answer, and may take its place: remediation is on,
  -- the correction cites retrieved chunks, and where it is to be verified, the judge finds it
  -- grounded.
  pub record Corrects (answer : Text) (chunks : List Text) (text : Text) : Type 0 where
    pub remediation : settings.remediation ≡ true
    pub corrected : text ≡ strip u (assess u settings show judge answer chunks).corrected
    pub is_cited : IsCited u text (length chunks)
    pub verified :
        (settings.reverify ≡ false) ⊎ ((assess u settings show judge text chunks).grounded ≡ true)

  -- The ways in which `enforce` ends, by the judge's verdict.
  abbrev pub Ended : Text → List Text → Text × Text → Type 0
  Ended answer chunks (text, status) =
      (((assess u settings show judge answer chunks).grounded ≡ true)
        × (text ≡ answer)
        × ((status ≡ status_grounded) ⊎ (status ≡ status_skipped) ⊎ (status ≡ status_error)))
      ⊎ (((assess u settings show judge answer chunks).grounded ≡ false)
          × (status ≡ status_remediated)
          × Corrects answer chunks text)
      ⊎ (((assess u settings show judge answer chunks).grounded ≡ false)
          × (text ≡ abstain_message)
          × (status ≡ status_abstained)
          × ((other : Text) → ¬ Corrects answer chunks other))

  -- Without chunks the judge is not asked.
  assess-chunks :
      (answer : Text) (chunks : List Text)
      → (assess u settings show judge answer chunks).grounded ≡ false
      → 1 ≤ length chunks
  unfolding assess applies
  assess-chunks answer [] bad = absurd (ground arith)
  assess-chunks answer (c ∷ cs) bad = omega arith

  kept_status :
      (reason : Text)
      → let status =
          if text_eq reason status_skipped || text_eq reason status_error
          then reason
          else status_grounded in
        (status ≡ status_grounded) ⊎ (status ≡ status_skipped) ⊎ (status ≡ status_error)
  kept_status reason =
      ground (arith, text_eq_iff reason status_skipped, text_eq_iff reason status_error)

  -- A grounded answer is returned unchanged, with status grounded, skipped or error. An answer
  -- that the judge finds ungrounded is never returned under such a status. With status remediated
  -- it is replaced by the judge's correction, which has a citation, cites only retrieved chunks, does
  -- not abstain and, where verification is on, is found grounded itself; with status abstained, by the
  -- abstain message, and then there is no such correction or remediation is off.
  pub enforce-Ended :
      (answer : Text) (chunks : List Text)
      → Ended answer chunks (enforce u settings show judge answer chunks)
  unfolding enforce
  enforce-Ended answer chunks =
      let v = assess u settings show judge answer chunks in
      let text = strip u v.corrected in
      let again = (assess u settings show judge text chunks).grounded in
      let P = Ended answer chunks in
      if_elim P v.grounded (λ good. inl (good, refl, kept_status v.reason))
        λ bad.
          let exact = is_salvaged_iff u text (length chunks) (assess-chunks answer chunks bad) in
          if_elim P (settings.remediation && is_salvaged u text (length chunks))
            (λ s.
              if_elim P (settings.reverify && not again)
                (λ unverified. inr (
                  inr (
                    bad,
                    refl,
                    refl,
                    λ other c.
                        let same = rw c.corrected at c.verified in absurd (ground (arith, same)),
                  )))
                (λ verified. inr (
                  inl (
                    bad,
                    refl,
                    record {
                      remediation = ground arith;
                      corrected = refl;
                      is_cited = exact.0 (ground arith);
                      verified = ground arith;
                    },
                  ))))
            (λ refused. inr (
              inr (
                bad,
                refl,
                refl,
                λ other c.
                    let fine = exact.1 (rw c.corrected at c.is_cited) in
                    absurd (ground (arith, fine, c.remediation)),
              )))
