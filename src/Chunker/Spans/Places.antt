-- ===== src/Chunker/Spans/Places.antt =====
-- What the positions of the chunk objects say.
use agentic_rag_backend.Base.{
  ℕ, suc, ◌+◌, ◌≤◌, ◌<◌, ◌≡◌, refl, ◌⊎◌, inl, inr, true, false, some, List, [], ◌∷◌, length, drop,
  Option-cases,
}
use agentic_rag_backend.Base.Dict
use agentic_rag_backend.Base.Dict.{get-put}
use agentic_rag_backend.Base.Text.{
  Text, Unicode, codes, strip, find, starts_with, find_sound, find_first, find-none,
}
use agentic_rag_backend.Chunker.Config.{ChunkingConfig, DocumentChunk, Metadata, num, new_chunk}
use agentic_rag_backend.Chunker.Spans.{start_of, chunk_metadata, create_from, create_chunk_objects}

-- `start` is where a search from `pos` on leads: to the first occurrence of the chunk there, or to
-- `pos` itself where there is none.
abbrev pub IsStart : Text → Text → ℕ → ℕ → Type 0
IsStart original c pos start =
    ((pos ≤ start)
      × (starts_with c (drop start original) ≡ true)
      × ((k : ℕ) → pos ≤ k → k < start → starts_with c (drop k original) ≡ false))
    ⊎ ((start ≡ pos)
        × ((k : ℕ) → pos ≤ k → k ≤ length original → starts_with c (drop k original) ≡ false))

-- One object for each chunk, in order. Its span has the chunk's length, and starts where a search
-- from the end of the span before leads.
abbrev pub Placed : Unicode → Text → ℕ → ℕ → ℕ → List Text → List DocumentChunk → Type 0
Placed u original total i pos [] [] = Unit
Placed u original total i pos (c ∷ cs) (o ∷ os) =
    (o.content ≡ strip u c)
    × (o.index ≡ i)
    × (Dict.get (codes "total_chunks") o.metadata ≡ some (num total))
    × (o.end_char ≡ o.start_char + length c)
    × IsStart original c pos o.start_char
    × Placed u original total (suc i) o.end_char cs os
Placed u original total i pos _ _ = ⊥

start_of-IsStart : (original c : Text) (pos : ℕ) → IsStart original c pos (start_of original c pos)
unfolding start_of
start_of-IsStart original c pos = elim (Option-cases (find original c pos)) [
  | inl miss ↦ rw (miss, start_of) (inr (refl, λ k. find-none original c pos k miss))
  | inr (j, hit) ↦
      let (le, at) = find_sound original c pos hit in
      rw (hit, start_of) (inl (le, at, λ k. find_first original c pos k hit))
]

module _ (u : Unicode) (config : ChunkingConfig) (original : Text) (base : Metadata) where
  total-chunk_metadata :
      (total : ℕ)
      → Dict.get (codes "total_chunks") (chunk_metadata u config original base total)
        ≡ some (num total)
  unfolding chunk_metadata
  total-chunk_metadata total = rw get-put

  create_from-Placed :
      (total i pos : ℕ) (chunks : List Text)
      → Placed u original total i pos chunks (create_from u config original base total i pos chunks)
  unfolding create_from new_chunk
  create_from-Placed total i pos [] = tt
  create_from-Placed total i pos (c ∷ cs) = (
    refl,
    refl,
    total-chunk_metadata total,
    refl,
    start_of-IsStart original c pos,
    create_from-Placed total (suc i) (start_of original c pos + length c) cs,
  )

  -- Every chunk becomes one object, numbered from 0 in order, whose metadata has the number of
  -- chunks. Its span is as long as the chunk, and starts at the first occurrence of the chunk at or
  -- behind the end of the span before, or exactly at that end where the text holds no such
  -- occurrence. So no two spans overlap, though the pieces of the splitter overlap in the text.
  pub create_chunk_objects-Placed :
      (chunks : List Text)
      → Placed u original
          (length chunks)
          0
          0
          chunks
          (create_chunk_objects u config original base chunks)
  unfolding create_chunk_objects
  create_chunk_objects-Placed chunks = create_from-Placed (length chunks) 0 0 chunks
