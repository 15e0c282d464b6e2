-- ===== src/Retrieval/Search.antt =====
-- `hybrid_search_tool` of agent/tools.py: the cache, the embedding, the retrieval and the reranking.
-- The embedding model and the search engines are parameters; `none` is an exception.
use agentic_rag_backend.Base.{
  ℕ, ◌≤◌, ◌≡◌, inl, inr, max, Bool, Option, none, some, List, [], ◌∷◌, map, length, All, arith,
  Option-cases,
}
use agentic_rag_backend.Base.Int.{ℤ}
use agentic_rag_backend.Base.Text.{Text, Unicode}
use agentic_rag_backend.Redis.{Redis}
use agentic_rag_backend.Caches.{Outside, CacheSettings, get_query, set_query}
use agentic_rag_backend.Retrieval.{Floats, ChunkResult, Row, or_zero, retrieve}
use agentic_rag_backend.Retrieval.Rerank.{RerankSettings, candidate_pool_size, clamp, rerank}
use agentic_rag_backend.Retrieval.Results.{Scoreless, rerank-All, rerank-Within}

-- An engine: the query, its embedding, the limit and the user.
abbrev pub Engine {ℓ} : Floats → Type ℓ → Type ℓ
Engine fl E = Text → E → ℕ → Option Text → Option (List (Row fl))

module _ (fl : Floats) where
  unfoldable pub score_of : Option fl.Float → Option fl.Float → fl.Float
  score_of none similarity = or_zero fl similarity
  score_of (some score) similarity = score

  unfoldable pub cosine_of : Option fl.Float → Option fl.Float → fl.Float
  cosine_of none similarity = or_zero fl similarity
  cosine_of (some cosine) similarity = cosine

  -- The candidate of a row. `ChunkResult` brings the score into [0, 1].
  unfoldable pub candidate : Row fl → ChunkResult fl
  candidate r = record {
    chunk_id = r.chunk_id;
    document_id = r.document_id;
    content = r.content;
    score = clamp fl (score_of r.combined_score r.similarity);
    vector_similarity = cosine_of r.cosine_similarity r.similarity;
    document_title = r.document_title;
    document_source = r.document_source;
  }

module _ {ℓ} {E : Type ℓ} (fl : Floats) (u : Unicode) (r : Redis)
    (o : Outside (List (ChunkResult fl))) (k : CacheSettings) (reranking : RerankSettings)
    (voyage : Text → List Text → ℕ → Option (List (Option ℤ × fl.Float))) (vespa_enabled : Bool)
    (embed : Text → Option E) (vespa postgres weighted : Engine fl E) (online : Bool) where
  -- The recall stage; `weighted` is the direct call of `hybrid_search` with its text weight.
  unfoldable pub recall : Text → E → ℕ → Option Text → Option (List (Row fl))
  recall query embedding limit user_id =
      let first =
        retrieve fl vespa_enabled (vespa query embedding limit user_id)
          (postgres query embedding limit user_id) in
      elim first [ none ↦ weighted query embedding limit user_id | some rows ↦ some rows ]

  -- The rows of a search that the cache does not answer.
  unfoldable pub rows_of : Text → Option Text → ℕ → Option (List (Row fl))
  rows_of query user_id limit = elim (embed query) [
    | none ↦ none
    | some embedding ↦ recall query embedding (candidate_pool_size reranking limit) user_id
  ]

  -- `hybrid_search_tool`: an exception gives no chunks.
  unfoldable pub hybrid_search_tool : Text → Option Text → ℕ → r.Db → r.Db × List (ChunkResult fl)
  hybrid_search_tool query user_id limit d = elim (get_query u r o k online query user_id limit d) [
    | some cached ↦ (d, cached)
    | none ↦ elim (rows_of query user_id limit) [
      | none ↦ (d, [])
      | some rows ↦
          let reranked = rerank fl reranking voyage query (map (candidate fl) rows) limit in
          (set_query u r o k online query user_id limit reranked d, reranked)
    ]
  ]

  length-rerank :
      (query : Text) (chunks : List (ChunkResult fl)) (limit : ℕ)
      → length (rerank fl reranking voyage query chunks limit) ≤ max 1 limit
  unfolding rerank
  length-rerank query [] limit = omega arith
  length-rerank query (c ∷ cs) limit =
      let bounds = rerank-Within fl reranking voyage query c cs limit in omega (arith, bounds)

  -- A search that the cache does not answer returns at most `limit` chunks (one where `limit` is
  -- 0), and what holds of the candidates of all rows found, and does not depend on the score,
  -- holds of all chunks returned, whether the embedding, the engines or the reranker fail or not.
  pub hybrid_search_tool-All {κ} :
      (P : ChunkResult fl → Type κ)
      → Scoreless fl P
      → (query : Text) (user_id : Option Text) (limit : ℕ) (d : r.Db)
      → get_query u r o k online query user_id limit d ≡ none
      → ((rows : List (Row fl))
          → rows_of query user_id limit ≡ some rows
          → All P (map (candidate fl) rows))
      → (length (hybrid_search_tool query user_id limit d).1 ≤ max 1 limit)
        × All P (hybrid_search_tool query user_id limit d).1
  unfolding hybrid_search_tool
  hybrid_search_tool-All P scoreless query user_id limit d miss found =
      elim (Option-cases (rows_of query user_id limit)) [
        | inl e ↦ rw (miss, e, length, All) (omega arith, tt)
        | inr (rows, e) ↦
            rw (miss, e, length, All)
              (
                length-rerank query (map (candidate fl) rows) limit,
                rerank-All fl reranking voyage P scoreless query (map (candidate fl) rows) limit
                    (found rows e),
              )
      ]
