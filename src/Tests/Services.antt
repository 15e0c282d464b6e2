-- ===== src/Tests/Services.antt =====
-- The theorems on the embedder and on the document search at concrete inputs.
use agentic_rag_backend.Base.{
  Option, ◌&&◌, ◌||◌, not, any, keep_if, ℕ, zero, suc, subst, ap, sym, ◌∙◌, length-map, ◌≤◌, ◌≡◌,
  refl, max, true, false, none, some, List, [], ◌∷◌, map, All, length, arith,
}
use agentic_rag_backend.Base.Dict.{keys}
use agentic_rag_backend.Base.Outcome.{returned}
use agentic_rag_backend.Base.Text.{Text, text_eq, codes}
use agentic_rag_backend.Caches.{Outside, CacheSettings, get_query, fetch}
use agentic_rag_backend.Chunker.Config.{DocumentChunk, new_chunk}
use agentic_rag_backend.Embedder.{
  EmbedderConfig, Reply, Tried, got, embedded, api_error, Embedded, embed_chunks,
}
use agentic_rag_backend.Embedder.Cache.{EmbeddingCache, put, get, IsValid, put-IsValid}
use agentic_rag_backend.Embedder.Cached.{cached_generate, cached_generate_repeat}
use agentic_rag_backend.Embedder.Complete.{contents, embedded_contents, embed_chunks_complete}
use agentic_rag_backend.Ingest.{StoredChunk, is_stale, stale_ids, old_hashes, chunks_to_embed}
use agentic_rag_backend.Ingest.Exact.{any_hash, chunks_to_embed-any_hash}
use agentic_rag_backend.Retrieval.{ChunkResult, Row}
use agentic_rag_backend.Retrieval.Rerank.{RerankSettings}
use agentic_rag_backend.Retrieval.Search.{
  Engine, candidate, rows_of, hybrid_search_tool, hybrid_search_tool-All,
}
use agentic_rag_backend.Tests.Sample.{ascii, thousandths, server, empty_data}

abbrev embedder_config : EmbedderConfig
embedder_config = record {
  model = codes "m";
  batch_size = 2;
  max_retries = 2;
  dimensions = 3;
  max_tokens = 100;
}

-- The first call fails, the second and every later one gives the lengths of the texts.
abbrev flaky : ℕ → List Text → Reply ℕ
flaky zero texts = api_error (codes "down")
flaky (suc n) texts = embedded (map length texts)

abbrev three_chunks : List DocumentChunk
three_chunks =
    new_chunk (codes "a") 0 0 1 [] none
    ∷ new_chunk (codes "bb") 1 1 3 [] none
    ∷ new_chunk (codes "ccc") 2 3 6 [] none
    ∷ []

flaky_sized :
    (n : ℕ) (texts : List Text) (vs : List ℕ)
    → flaky n texts ≡ embedded vs
    → length vs ≡ length texts
flaky_sized zero texts vs e = absurd (cc)
flaky_sized (suc n) texts vs e =
    let same : map length texts ≡ vs = cc in ap length (sym same) ∙ length-map length texts

embed_chunks_complete_example :
    (out : List (Embedded ascii embedder_config flaky (λ n. 0) [] [])) × (embed_chunks ascii
        embedder_config flaky
        (λ n. 0)
        []
        []
        (codes "now")
        0
        three_chunks
      ≡ returned out)
    × (embedded_contents ascii embedder_config flaky (λ n. 0) [] [] out ≡ contents three_chunks)
embed_chunks_complete_example =
    embed_chunks_complete ascii embedder_config flaky (λ n. 0) [] [] flaky_sized (codes "now") 0
      three_chunks (omega arith)

abbrev full_cache : EmbeddingCache ℕ
full_cache = record {
  cache = (codes "a", 1) ∷ (codes "b", 2) ∷ [];
  access_times = (codes "a", 20) ∷ (codes "b", 10) ∷ [];
  max_size = 2;
}

full_cache-IsValid : IsValid (λ t. t) full_cache
unfolding keys
full_cache-IsValid = record { same_keys = refl; bounded = omega arith }

put-IsValid_example :
    (c' : EmbeddingCache ℕ) × (put (λ t. t) (codes "c") 3 30 full_cache ≡ some c')
    × IsValid (λ t. t) c'
    × (((get (λ t. t) (codes "c") 40 c').1 ≡ some 3)
        × IsValid (λ t. t) (get (λ t. t) (codes "c") 40 c').0)
put-IsValid_example =
    put-IsValid (λ t. t) (codes "c") 3 30 40 full_cache full_cache-IsValid (omega arith)

abbrev no_cache : Outside (List (ChunkResult thousandths))
no_cache = record { sha256 = λ t. t; dumps = λ a. []; loads = λ t. none; int = λ t. none }

abbrev query_cache : CacheSettings
query_cache = record { enabled = true; ttl = 600; prefix = codes "q:"; version_prefix = codes "q:" }

abbrev reranking : RerankSettings
reranking = record {
  enabled_flag = false;
  provider = codes "voyage";
  voyage_key = [];
  candidates = 50;
}

abbrev row : Row thousandths
row = record {
  chunk_id = codes "c1";
  document_id = codes "d1";
  content = codes "The fee is 500.";
  combined_score = some 30;
  similarity = some 600;
  cosine_similarity = none;
  document_title = codes "Handbook";
  document_source = codes "handbook.md";
}

abbrev two_rows : Engine thousandths ℕ
two_rows query embedding limit user_id = some (row ∷ row ∷ [])

-- Both rows come from the fallback, with their cosine.
found_bounds :
    (rows : List (Row thousandths))
    → rows_of thousandths ascii server no_cache query_cache reranking
        (λ q d n. none)
        true
        (λ t. some 7)
        (λ q e n i. none)
        two_rows
        two_rows
        true
        (codes "fee")
        none
        1
      ≡ some rows
    → All
        (λ (c : ChunkResult thousandths). 500 ≤ c.vector_similarity)
        (map (candidate thousandths) rows)
unfolding rows_of agentic_rag_backend.Retrieval.Search.recall agentic_rag_backend.Retrieval.retrieve
    agentic_rag_backend.Retrieval.postgres_fallback agentic_rag_backend.Retrieval.or_zero candidate
    agentic_rag_backend.Retrieval.Search.cosine_of
found_bounds rows h =
    let found : Row thousandths = record row { cosine_similarity = some 600 } in
    let same : found ∷ found ∷ [] ≡ rows = cc in
    subst
      (λ rs.
        All (λ (c : ChunkResult thousandths). 500 ≤ c.vector_similarity)
          (map (candidate thousandths) rs))
      same (omega arith, (omega arith, tt))

hybrid_search_tool-All_example :
    (length
        (hybrid_search_tool thousandths ascii server no_cache query_cache reranking
          (λ q d n. none)
          true
          (λ t. some 7)
          (λ q e n i. none)
          two_rows
          two_rows
          true
          (codes "fee")
          none
          1
          empty_data).1
      ≤ max 1 1)
    × All
        (λ (c : ChunkResult thousandths). 500 ≤ c.vector_similarity)
        (hybrid_search_tool thousandths ascii server no_cache query_cache reranking
          (λ q d n. none)
          true
          (λ t. some 7)
          (λ q e n i. none)
          two_rows
          two_rows
          true
          (codes "fee")
          none
          1
          empty_data).1
unfolding get_query fetch
hybrid_search_tool-All_example =
    hybrid_search_tool-All thousandths ascii server no_cache query_cache reranking (λ q d n. none)
      true (λ t. some 7) (λ q e n i. none) two_rows two_rows true
      (λ (c : ChunkResult thousandths). 500 ≤ c.vector_similarity) (λ c s p. p) (codes "fee") none 1
      empty_data refl found_bounds

-- A document with the chunks a and b stored, and a row without a hash; its new version has b and c.
abbrev stored_chunks : List StoredChunk
stored_chunks =
    record { id = codes "1"; content_hash = some (codes "a") }
    ∷ record { id = codes "2"; content_hash = some (codes "b") }
    ∷ record { id = codes "3"; content_hash = none }
    ∷ []

abbrev new_chunks : List Text
new_chunks = codes "b" ∷ codes "c" ∷ []

chunks_to_embed-any_hash_example :
    any_hash
      (λ t. t)
      (λ t. t)
      (codes "b")
      (chunks_to_embed (λ t. t) (λ t. t) new_chunks stored_chunks)
    ≡ (any_hash (λ t. t) (λ t. t) (codes "b") new_chunks
        && not (any (text_eq (codes "b")) (old_hashes stored_chunks)))
chunks_to_embed-any_hash_example =
    chunks_to_embed-any_hash (λ t. t) (λ t. t) new_chunks stored_chunks (codes "b")

-- The row of a and the row without a hash go, and only c is embedded.
stale_run : stale_ids (λ t. t) (λ t. t) new_chunks stored_chunks ≡ codes "1" ∷ codes "3" ∷ []
unfolding stale_ids is_stale agentic_rag_backend.Ingest.has_hash agentic_rag_backend.Ingest.has
    agentic_rag_backend.Base.Dict.get agentic_rag_backend.Ingest.new_chunk_hashes
    agentic_rag_backend.Ingest.hashed agentic_rag_backend.Base.Dict.put
stale_run = refl

embed_run : chunks_to_embed (λ t. t) (λ t. t) new_chunks stored_chunks ≡ codes "c" ∷ []
unfolding chunks_to_embed agentic_rag_backend.Ingest.new_chunk_hashes
    agentic_rag_backend.Ingest.hashed agentic_rag_backend.Base.Dict.put old_hashes
embed_run = refl

abbrev new_cache : EmbeddingCache (Option ℕ)
new_cache = record { cache = []; access_times = []; max_size = 2 }

new_cache-IsValid : IsValid (λ t. t) new_cache
unfolding keys
new_cache-IsValid = record { same_keys = refl; bounded = omega arith }

-- The service gives the length of a text at once.
abbrev steady : ℕ → List Text → Reply ℕ
steady n texts = embedded (map length texts)

abbrev filled_cache : EmbeddingCache (Option ℕ)
filled_cache = record {
  cache = (codes "fee", some 3) ∷ [];
  access_times = (codes "fee", 10) ∷ [];
  max_size = 2;
}

cached_generate_repeat_example :
    (◌≡◌ {A = Tried ℕ} (got 3) (got 3))
    × ((cached_generate ascii embedder_config steady
          (λ n. 0)
          []
          []
          (λ t. t)
          1
          (codes "fee")
          20
          filled_cache).2
        ≡ got 3)
    × ((cached_generate ascii embedder_config steady
          (λ n. 0)
          []
          []
          (λ t. t)
          1
          (codes "fee")
          20
          filled_cache).0
        ≡ 1)
unfolding get put cached_generate agentic_rag_backend.Base.Dict.get
    agentic_rag_backend.Embedder.generate_embedding agentic_rag_backend.Embedder.try_single
    agentic_rag_backend.Embedder.truncate agentic_rag_backend.Embedder.Cached.known
    agentic_rag_backend.Embedder.Cached.remember agentic_rag_backend.Embedder.Cached.to_store
    agentic_rag_backend.Embedder.Cache.make_room agentic_rag_backend.Base.Dict.put
cached_generate_repeat_example =
    cached_generate_repeat ascii embedder_config steady (λ n. 0) [] [] (λ t. t) 0 (codes "fee") 10
      20 new_cache {m = 1} {c' = filled_cache} {v = 3} {result = got 3} new_cache-IsValid
      (omega arith) refl refl refl
