-- ===== src/Chunker/Split/Stuck.antt =====
-- Where the overlap reaches back over a whole window, `_simple_split` never ends.
use agentic_rag_backend.Base.{ℕ, zero, suc, ◌+◌, ◌<◌, ◌≡◌, refl, some, arith, length}
use agentic_rag_backend.Base.Int.{pos, pos-add, pos-sub, pos-ltb}
use agentic_rag_backend.Base.Outcome.{out_of_fuel}
use agentic_rag_backend.Base.Text.{Text}
use agentic_rag_backend.Chunker.Config.{ChunkingConfig}
use agentic_rag_backend.Chunker.Split.{chunk_end_at, split_loop, simple_split}

module _ (config : ChunkingConfig) (text : Text) where
  -- If the text is longer than one window, and the first sentence end that the backward scan of
  -- the first window meets stands just before position `chunk_overlap`, then the next window
  -- starts at 0 again: however many rounds run, the loop has not ended.
  pub simple_split_diverges :
      config.chunk_size < length text
      → chunk_end_at config text (pos 0) ≡ some (pos config.chunk_overlap)
      → (fuel : ℕ) → simple_split config text fuel ≡ out_of_fuel
  unfolding simple_split split_loop
  simple_split_diverges long back zero = refl
  simple_split_diverges long back (suc fuel) = ground (
    arith,
    pos-ltb 0 (length text),
    pos-ltb (0 + config.chunk_size) (length text),
    pos-add 0 config.chunk_size,
    pos-sub config.chunk_overlap config.chunk_overlap,
    simple_split_diverges long back fuel,
  )
