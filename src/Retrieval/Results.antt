-- ===== src/Retrieval/Results.antt =====
-- What a reranked retrieval can contain.
use agentic_rag_backend.Base.{
  ℕ, zero, suc, ◌≤◌, ◌≡◌, refl, subst, ap, ◌∙◌, inl, inr, min, max, false, Option, some, List, [],
  ◌∷◌, map, if_elim, length, take, get_elem?, All, All-take, length-take, arith, Option-cases,
}
use agentic_rag_backend.Base.Int.{ℤ}
use agentic_rag_backend.Base.Text.{Text}
use agentic_rag_backend.Retrieval.{Floats, ChunkResult}
use agentic_rag_backend.Retrieval.Rerank.{
  RerankSettings, rerank_enabled, update, Ranked, with_index, clamp, valid_index, reorder, deref,
  no_results, ranked_chunks, rerank,
}

-- At least one item and at most `n`.
abbrev pub Within {ℓ} : {A : Type ℓ} → ℕ → List A → Type 0
Within n xs = (1 ≤ length xs) × (length xs ≤ n)

take-Within {ℓ} : {A : Type ℓ} (n : ℕ) (xs : List A) → 1 ≤ n → 1 ≤ length xs → Within n (take n xs)
take-Within n xs nonzero some_item = let len = length-take n xs in (omega arith, omega arith)

length-update {ℓ} :
    {A : Type ℓ} (i : ℕ) (f : A → A) (xs : List A) → length (update i f xs) ≡ length xs
length-update i f [] = refl
length-update zero f (x ∷ xs) = refl
length-update (suc i) f (x ∷ xs) = ap suc (length-update i f xs)

module _ (fl : Floats) where
  -- A property of chunks that does not read the score.
  abbrev pub Scoreless {ℓ} : (ChunkResult fl → Type ℓ) → Type ℓ
  Scoreless P = (c : ChunkResult fl) (s : fl.Float) → P c → P (record c { score = s })

  module _ {ℓ} (P : ChunkResult fl → Type ℓ) (scoreless : Scoreless P) where
    All-update :
        (i : ℕ) (s : fl.Float) (cs : List (ChunkResult fl))
        → All P cs
        → All P (update i (λ c. record c { score = s }) cs)
    All-update i s [] h = h
    All-update zero s (c ∷ cs) (p, ps) = (scoreless c s p, ps)
    All-update (suc i) s (c ∷ cs) (p, ps) = (p, All-update i s cs ps)

    All-get_elem? :
        (cs : List (ChunkResult fl)) (i : ℕ) {c : ChunkResult fl}
        → All P cs
        → get_elem? cs i ≡ some c
        → P c
    All-get_elem? [] i h e = absurd (cc)
    All-get_elem? (c ∷ cs) zero {c = d} (p, ps) e = let same : c ≡ d = cc in subst P same p
    All-get_elem? (c ∷ cs) (suc i) (p, ps) e = All-get_elem? cs i ps e

    All-deref :
        (cs : List (ChunkResult fl)) (refs : List ℕ) (done : List (ChunkResult fl))
        → All P cs
        → All P done
        → All P (deref fl cs refs done)
    unfolding deref
    All-deref cs [] done h d = d
    All-deref cs (i ∷ refs) done h d = elim (Option-cases (get_elem? cs i)) [
      | inl e ↦ rw (e, All) (All-deref cs refs done h d)
      | inr (c, e) ↦ rw (e, All) (All-deref cs refs (c ∷ done) h (All-get_elem? cs i h e, d))
    ]

    All-reorder :
        (ranked : Ranked fl) (cs : List (ChunkResult fl)) (refs : List ℕ)
        → All P cs
        → All P (reorder fl ranked cs refs).0
    unfolding reorder
    All-reorder [] cs refs h = h
    All-reorder ((idx, score) ∷ ranked) cs refs h =
        elim (Option-cases (valid_index fl (length cs) idx)) [
          | inl e ↦ rw (e, All) (All-reorder ranked cs refs h)
          | inr (i, e) ↦
              rw (e, All) (All-reorder ranked _ (i ∷ refs) (All-update i (clamp fl score) cs h))
        ]

    All-ranked_chunks :
        (ranked : Ranked fl) (cs : List (ChunkResult fl)) (n : ℕ)
        → All P cs
        → All P (ranked_chunks fl ranked cs n)
    unfolding ranked_chunks
    All-ranked_chunks ranked cs n h =
        let kept = All-reorder ranked cs [] h in
        if_elim (All P)
          (no_results fl (deref fl (reorder fl ranked cs []).0 (reorder fl ranked cs []).1 []))
          (λ _. All-take P n _ kept)
          (λ _. All-take P n _ (All-deref _ (reorder fl ranked cs []).1 [] kept tt))

  length-reorder :
      (ranked : Ranked fl) (cs : List (ChunkResult fl)) (refs : List ℕ)
      → length (reorder fl ranked cs refs).0 ≡ length cs
  unfolding reorder
  length-reorder [] cs refs = refl
  length-reorder ((idx, score) ∷ ranked) cs refs =
      elim (Option-cases (valid_index fl (length cs) idx)) [
        | inl e ↦ rw (e, length) (length-reorder ranked cs refs)
        | inr (i, e) ↦
            rw (e, length)
              (length-reorder ranked (update i (λ c. record c { score = clamp fl score }) cs)
                  (i ∷ refs)
                ∙ length-update i (λ c. record c { score = clamp fl score }) cs)
      ]

  no_results-length : (cs : List (ChunkResult fl)) → no_results fl cs ≡ false → 1 ≤ length cs
  no_results-length [] h = absurd (cc)
  no_results-length (c ∷ cs) h = omega arith

  ranked_chunks-Within :
      (ranked : Ranked fl) (cs : List (ChunkResult fl)) (n : ℕ)
      → 1 ≤ n
      → 1 ≤ length cs
      → Within n (ranked_chunks fl ranked cs n)
  unfolding ranked_chunks
  ranked_chunks-Within ranked cs n nonzero some_item =
      let found = deref fl (reorder fl ranked cs []).0 (reorder fl ranked cs []).1 [] in
      if_elim (Within n) (no_results fl found)
        (λ _. take-Within n _ nonzero (rw (length-reorder ranked cs []) some_item))
        (λ h. take-Within n found nonzero (no_results-length found h))

  module _ (k : RerankSettings)
      (voyage : Text → List Text → ℕ → Option (List (Option ℤ × fl.Float))) where
    -- Every chunk that `rerank` returns is a candidate, with its score at most replaced: what holds
    -- of all candidates and does not depend on the score holds of all results, whatever the
    -- provider replies.
    pub rerank-All {ℓ} :
        (P : ChunkResult fl → Type ℓ)
        → Scoreless P
        → (query : Text) (chunks : List (ChunkResult fl)) (top_n : ℕ) → All P chunks
        → All P (rerank fl k voyage query chunks top_n)
    unfolding rerank
    rerank-All P scoreless query [] top_n h = h
    rerank-All P scoreless query (c ∷ cs) top_n h =
        let n = max 1 (min top_n (length (c ∷ cs))) in
        if_elim (All P) (rerank_enabled k)
          (λ _. elim (Option-cases (voyage query (map (λ x. x.content) (c ∷ cs)) n)) [
            | inl e ↦ rw e (All-take P n (c ∷ cs) h)
            | inr (items, e) ↦
                rw e (All-ranked_chunks P scoreless (with_index fl items) (c ∷ cs) n h)
          ])
          (λ _. All-take P n (c ∷ cs) h)

    -- Of any candidates but none, `rerank` returns at least one chunk, and at most `top_n` of them
    -- (one where `top_n` is 0) and no more than there are candidates, whatever the provider replies.
    pub rerank-Within :
        (query : Text) (c : ChunkResult fl) (cs : List (ChunkResult fl)) (top_n : ℕ)
        → Within (max 1 (min top_n (length (c ∷ cs)))) (rerank fl k voyage query (c ∷ cs) top_n)
    unfolding rerank
    rerank-Within query c cs top_n =
        let n = max 1 (min top_n (length (c ∷ cs))) in
        let plain = take-Within n (c ∷ cs) (omega arith) (omega arith) in
        if_elim (Within n) (rerank_enabled k)
          (λ _. elim (Option-cases (voyage query (map (λ x. x.content) (c ∷ cs)) n)) [
            | inl e ↦ rw e plain
            | inr (items, e) ↦
                rw e (
                  ranked_chunks-Within (with_index fl items) (c ∷ cs) n (omega arith) (omega arith))
          ])
          (λ _. plain)
