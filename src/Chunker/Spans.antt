-- ===== src/Chunker/Spans.antt =====
-- `SemanticChunker._create_chunk_objects` and `_simple_chunk` of ingestion/chunker.py.
pub mod Places
use agentic_rag_backend.Base.{
  ℕ, zero, suc, ◌+◌, Option, none, some, List, [], ◌∷◌, if◌then◌else◌, length,
}
use agentic_rag_backend.Base.Dict
use agentic_rag_backend.Base.Outcome.{Outcome, returned, ◌>>=◌}
use agentic_rag_backend.Base.Text.{Text, Unicode, codes, strip, find}
use agentic_rag_backend.Chunker.Config.{
  ChunkingConfig, DocumentChunk, Metadata, Field, str, num, new_chunk,
}
use agentic_rag_backend.Chunker.Split.{simple_split}

-- `original_content.find(chunk_text, current_pos)`, or `current_pos` where it is -1.
unfoldable pub start_of : Text → Text → ℕ → ℕ
start_of original chunk_text current_pos = elim (find original chunk_text current_pos) [
  | none ↦ current_pos
  | some i ↦ i
]

module _ (u : Unicode) (config : ChunkingConfig) (original : Text) (base_metadata : Metadata) where
  unfoldable pub chunk_metadata : ℕ → Metadata
  chunk_metadata total = Dict.put (codes "total_chunks") (num total) (
      Dict.put (codes "chunk_method")
        (str (if config.use_semantic_splitting then codes "semantic" else codes "simple"))
        base_metadata)

  -- The loop over `enumerate(chunks)`; `total` is `len(chunks)`.
  unfoldable pub create_from : ℕ → ℕ → ℕ → List Text → List DocumentChunk
  create_from total i current_pos [] = []
  create_from total i current_pos (chunk_text ∷ chunks) =
      let start_pos = start_of original chunk_text current_pos in
      let end_pos = start_pos + length chunk_text in
      new_chunk (strip u chunk_text) i start_pos end_pos (chunk_metadata total) none
      ∷ create_from total (suc i) end_pos chunks

  unfoldable pub create_chunk_objects : List Text → List DocumentChunk
  create_chunk_objects chunks = create_from (length chunks) 0 0 chunks

-- `_simple_chunk`, with the fuel of the splitter.
unfoldable pub simple_chunk :
    Unicode → ChunkingConfig → ℕ → Text → Metadata → Outcome (List DocumentChunk)
simple_chunk u config fuel content base_metadata = simple_split config content fuel >>= λ chunks.
    returned (create_chunk_objects u config content base_metadata chunks)
