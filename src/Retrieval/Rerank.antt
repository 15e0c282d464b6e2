-- ===== src/Retrieval/Rerank.antt =====
-- agent/reranker.py: the candidates reordered by the provider's scores. The provider is a
-- parameter; `none` is an error of its call.
use agentic_rag_backend.Base.{
  ℕ, zero, suc, min, max, Bool, true, false, ◌&&◌, not, Option, none, some, List, [], ◌∷◌, map, ltb,
  if◌then◌else◌, length, take, get_elem?,
}
use agentic_rag_backend.Base.Int.{ℤ, pos, negsuc}
use agentic_rag_backend.Base.Text.{Text, is_empty, text_eq, codes}
use agentic_rag_backend.Retrieval.{Floats, ChunkResult, max_float, min_float}

-- The environment, stripped and lowered as the module reads it.
pub record RerankSettings : Type 0 where
  pub enabled_flag : Bool
  pub provider : Text
  pub voyage_key : Text
  pub candidates : ℕ

unfoldable pub rerank_enabled : RerankSettings → Bool
rerank_enabled k =
    k.enabled_flag && text_eq k.provider (codes "voyage") && not (is_empty k.voyage_key)

unfoldable pub candidate_pool_size : RerankSettings → ℕ → ℕ
candidate_pool_size k limit = if rerank_enabled k then max limit k.candidates else limit

-- A list with the item at an index changed.
abbrev pub update {ℓ} : {A : Type ℓ} → ℕ → (A → A) → List A → List A
update i f [] = []
update zero f (x ∷ xs) = f x ∷ xs
update (suc i) f (x ∷ xs) = x ∷ update i f xs

module _ (fl : Floats) where
  abbrev pub Ranked : Type 0
  Ranked = List (ℤ × fl.Float)

  -- The items of the reply that have an index, as `_voyage_rerank` collects them.
  unfoldable pub with_index : List (Option ℤ × fl.Float) → Ranked
  with_index [] = []
  with_index ((none, score) ∷ items) = with_index items
  with_index ((some i, score) ∷ items) = (i, score) ∷ with_index items

  unfoldable pub clamp : fl.Float → fl.Float
  clamp score = max_float fl fl.zero (min_float fl fl.one score)

  -- `0 <= idx < len(chunks)`
  unfoldable pub valid_index : ℕ → ℤ → Option ℕ
  valid_index n (pos i) = if ltb i n then some i else none
  valid_index n (negsuc _) = none

  -- The loop over the ranking. Chunks are shared objects: `chunks[idx].score = …` changes the
  -- candidate itself, and `reordered` holds references, here indices.
  unfoldable pub reorder : Ranked → List (ChunkResult fl) → List ℕ → List (ChunkResult fl) × List ℕ
  reorder [] chunks refs = (chunks, refs)
  reorder ((idx, score) ∷ ranked) chunks refs = elim (valid_index (length chunks) idx) [
    | none ↦ reorder ranked chunks refs
    | some i ↦ reorder ranked (update i (λ c. record c { score = clamp score }) chunks) (i ∷ refs)
  ]

  -- The chunks that references stand for; they are collected last first.
  unfoldable pub deref :
      List (ChunkResult fl) → List ℕ → List (ChunkResult fl) → List (ChunkResult fl)
  deref chunks [] done = done
  deref chunks (i ∷ refs) done = elim (get_elem? chunks i) [
    | none ↦ deref chunks refs done
    | some c ↦ deref chunks refs (c ∷ done)
  ]

  abbrev pub no_results : List (ChunkResult fl) → Bool
  no_results [] = true
  no_results (_ ∷ _) = false

  -- The end of `rerank`, with a ranking.
  unfoldable pub ranked_chunks : Ranked → List (ChunkResult fl) → ℕ → List (ChunkResult fl)
  ranked_chunks ranked chunks n =
      let (scored, refs) = reorder ranked chunks [] in
      let reordered = deref scored refs [] in
      if no_results reordered then take n scored else take n reordered

  module _ (k : RerankSettings)
      (voyage : Text → List Text → ℕ → Option (List (Option ℤ × fl.Float))) where
    unfoldable pub rerank : Text → List (ChunkResult fl) → ℕ → List (ChunkResult fl)
    rerank query [] top_n = []
    rerank query (c ∷ cs) top_n =
        let chunks = c ∷ cs in
        let n = max 1 (min top_n (length chunks)) in
        if rerank_enabled k
        then elim (voyage query (map (λ x. x.content) chunks) n) [
          | none ↦ take n chunks
          | some items ↦ ranked_chunks (with_index items) chunks n
        ]
        else take n chunks
