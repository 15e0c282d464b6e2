-- ===== src/Chunker/Paragraphs.antt =====
-- `SimpleChunker` of ingestion/chunker.py: paragraphs are grouped up to `chunk_size`.
pub mod Keeps
pub mod Bounds
use agentic_rag_backend.Base.{
  ℕ, zero, suc, ◌+◌, ◌-◌, Option, none, some, List, [], ◌∷◌, ◌++◌, map, leb, ◌==◌, if◌then◌else◌,
  length,
}
use agentic_rag_backend.Base.Dict
use agentic_rag_backend.Base.Text.{Text, Unicode, codes, strip, is_empty, cons_head}
use agentic_rag_backend.Chunker.Config.{
  ChunkingConfig, DocumentChunk, Metadata, Field, str, num, new_chunk,
}

-- Python's `"\n\n"`
abbrev pub blank_line : Text
blank_line = 10 ∷ 10 ∷ []

unfoldable pub set_total : ℕ → DocumentChunk → DocumentChunk
set_total total chunk = record chunk {
  metadata = Dict.put (codes "total_chunks") (num total) chunk.metadata;
}

module _ (u : Unicode) where
  -- The text behind the longest match of `\s*\n`, if there is one.
  unfoldable pub blank_end : Text → Option Text
  blank_end [] = none
  blank_end (c ∷ t) = elim (blank_end t) [
    | none ↦ (if u.is_space c then (if c == 10 then some t else none) else none)
    | some r ↦ (if u.is_space c then some r else none)
  ]

  -- `re.split(r"\n\s*\n", content)`. A round takes one character at least.
  unfoldable pub split_paragraphs : ℕ → Text → List Text
  split_paragraphs fuel [] = [] ∷ []
  split_paragraphs zero (c ∷ t) = (c ∷ t) ∷ []
  split_paragraphs (suc fuel) (c ∷ t) =
      let next : List Text = cons_head c (split_paragraphs fuel t) in
      let break : List Text = elim (blank_end t) [
        | none ↦ next
        | some r ↦ [] ∷ split_paragraphs fuel r
      ] in
      if c == 10 then break else next

  module _ (config : ChunkingConfig) (base_metadata : Metadata) where
    -- `_create_chunk`
    unfoldable pub create_chunk : Text → ℕ → ℕ → DocumentChunk
    create_chunk content index start_pos =
        new_chunk (strip u content) index start_pos (start_pos + length content) base_metadata none

    -- The loop over the paragraphs and the final chunk. `current` is `current_chunk`.
    unfoldable pub group : Text → ℕ → ℕ → List Text → List DocumentChunk
    group current pos index [] =
        if is_empty current then [] else create_chunk current index pos ∷ []
    group current pos index (p ∷ ps) =
        let paragraph = strip u p in
        let potential =
          if is_empty current then paragraph else current ++ (blank_line ++ paragraph) in
        let skip = group current pos index ps in
        let extend = group potential pos index ps in
        let restart = group paragraph pos index ps in
        let flush =
          create_chunk current index pos
          ∷ group paragraph (pos + (length current - config.chunk_overlap)) (suc index) ps in
        if is_empty paragraph
        then skip
        else if leb (length potential) config.chunk_size
        then extend
        else if is_empty current
        then restart
        else flush

  -- `chunk_document`; `base_metadata` has title, source, method and the caller's entries.
  unfoldable pub chunk_document : ChunkingConfig → Metadata → Text → List DocumentChunk
  chunk_document config base_metadata content =
      let chunks =
        group config base_metadata [] 0 0 (split_paragraphs (suc (length content)) content) in
      if is_empty (strip u content) then [] else map (set_total (length chunks)) chunks
