-- ===== src/Chunker/Paragraphs/Bounds.antt =====
-- The sizes and the numbering of the chunks of `SimpleChunker`.
use agentic_rag_backend.Base.{
  ℕ, suc, ◌+◌, ◌-◌, ◌≤◌, ◌≡◌, refl, List, [], ◌∷◌, ◌++◌, map, arith, leb, if◌then◌else◌, length,
  All, leb→le, if_elim,
}
use agentic_rag_backend.Base.Text.{Text, Unicode, strip, is_empty, length-strip}
use agentic_rag_backend.Chunker.Config.{ChunkingConfig, DocumentChunk, Metadata, new_chunk}
use agentic_rag_backend.Chunker.Paragraphs.{
  blank_line, split_paragraphs, create_chunk, group, set_total, chunk_document,
}

-- The chunks are numbered from `i`, and each content has at most `bound` characters.
abbrev pub Numbered : ℕ → ℕ → List DocumentChunk → Type 0
Numbered bound i [] = Unit
Numbered bound i (o ∷ os) = (o.index ≡ i) × (length o.content ≤ bound) × Numbered bound (suc i) os

module _ (u : Unicode) (config : ChunkingConfig) (base : Metadata) where
  group-Numbered :
      (current : Text) (pos index : ℕ) (ps : List Text)
      → length current ≤ config.chunk_size
      → All (λ p. length (strip u p) ≤ config.chunk_size) ps
      → Numbered config.chunk_size index (group u config base current pos index ps)
  unfolding group create_chunk new_chunk
  group-Numbered [] pos index [] h _ = tt
  group-Numbered (c ∷ t) pos index [] h _ = (refl, omega (arith, length-strip u (c ∷ t)), tt)
  group-Numbered current pos index (p ∷ ps) h (hp, hs) =
      let q = strip u p in
      let joined = if is_empty current then q else current ++ (blank_line ++ q) in
      let skip = group-Numbered current pos index ps h hs in
      let restart = group-Numbered q pos index ps hp hs in
      let flush =
        group-Numbered q (pos + (length current - config.chunk_overlap)) (suc index) ps hp hs in
      let P = Numbered config.chunk_size index in
      if_elim P (is_empty q) (λ _. skip)
        λ _.
          if_elim P (leb (length joined) config.chunk_size)
            (λ fits. group-Numbered joined pos index ps (leb→le _ _ fits) hs)
            λ _.
              if_elim P (is_empty current) (λ _. restart)
                λ _. (refl, omega (arith, length-strip u current), flush)

  Numbered-set_total :
      (n bound i : ℕ) (os : List DocumentChunk)
      → Numbered bound i os
      → Numbered bound i (map (set_total n) os)
  unfolding set_total
  Numbered-set_total n bound i [] h = tt
  Numbered-set_total n bound i (o ∷ os) (at, fits, h) =
      (at, fits, Numbered-set_total n bound (suc i) os h)

  -- Where no paragraph of the document is longer than `chunk_size`, no chunk is either; the
  -- chunks are numbered from 0 in order.
  pub chunk_document-Numbered :
      (content : Text)
      → All
          (λ p. length (strip u p) ≤ config.chunk_size)
          (split_paragraphs u (suc (length content)) content)
      → Numbered config.chunk_size 0 (chunk_document u config base content)
  unfolding chunk_document
  chunk_document-Numbered content h =
      if_elim (Numbered config.chunk_size 0) (is_empty (strip u content)) (λ _. tt)
        λ _. Numbered-set_total _ _ 0 _ (group-Numbered [] 0 0 _ (omega arith) h)
