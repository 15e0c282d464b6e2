-- ===== src/Chunker/Split/Step.antt =====
-- Where one round of `_simple_split` ends.
use agentic_rag_backend.Base.{
  ℕ, zero, suc, ◌+◌, ◌-◌, ◌≤◌, ◌<◌, ◌≡◌, refl, ◌⊎◌, inl, inr, some, arith, length, Bool-cases,
  get_elem?_lt, max,
}
use agentic_rag_backend.Base.Int.{pos, ◌+ℤ◌, ◌-ℤ◌, max_ℤ, pos-add, pos-sub, pos_part-sub}
use agentic_rag_backend.Base.Text.{Text}
use agentic_rag_backend.Chunker.Config.{ChunkingConfig}
use agentic_rag_backend.Chunker.Split.{scan_back, is_sentence_end, py_index, chunk_end_at}

pub scan_back_bounds :
    (text : Text) (r n d : ℕ)
    → r ≤ n
    → n < length text
    → (e : ℕ) × (scan_back text r (pos n) (pos d) ≡ some (pos e))
      × ((e ≡ d) ⊎ ((n + 2 ≤ e + r) × (e ≤ n + 1)))
unfolding scan_back py_index
scan_back_bounds text zero n d h lt = (d, refl, inl refl)
scan_back_bounds text (suc r) zero d h lt = absurd (omega arith)
scan_back_bounds text (suc r) (suc n) d h lt =
    let (c, at) = get_elem?_lt text (suc n) lt in
    elim (Bool-cases (is_sentence_end c)) [
      | inl stop ↦
          (suc n + 1, ground (arith, at, stop, pos-add (suc n) 1), inr (omega arith, omega arith))
      | inr go ↦
          let (e, found, bounds) = scan_back_bounds text r n d (omega arith) (omega arith) in
          (e, ground (arith, at, go, found, pos-sub (suc n) 1), ground arith)
    ]

module _ (config : ChunkingConfig) where
  -- How far a round moves from its start to its end, from below.
  abbrev pub Reaches : ℕ → ℕ → Type 0
  Reaches s e =
      (s + config.chunk_size ≤ e)
      ⊎ ((s + config.min_chunk_size + 2 ≤ e) × (s + config.chunk_size ≤ e + 198))

  low_bounds :
      (s : ℕ)
      → (l : ℕ) × (max_ℤ
            (pos s +ℤ pos config.min_chunk_size)
            (pos (s + config.chunk_size) -ℤ pos 200)
          ≡ pos l)
        × (s + config.min_chunk_size ≤ l)
        × (s + config.chunk_size ≤ l + 200)
  unfolding max_ℤ ◌+ℤ◌ ◌-ℤ◌
  low_bounds s = (
    max (s + config.min_chunk_size) (s + config.chunk_size - 200),
    ground arith,
    omega arith,
    omega arith,
  )

  -- A round that is not the last ends within `chunk_size + 1` characters, and raises nothing.
  pub chunk_end_bounds :
      (text : Text) (s : ℕ)
      → s + config.chunk_size < length text
      → (e : ℕ) × (chunk_end_at config text (pos s) ≡ some (pos e))
        × (e ≤ s + config.chunk_size + 1)
        × Reaches s e
  unfolding chunk_end_at
  chunk_end_bounds text s h =
      let (l, low, above, near) = low_bounds s in
      let end : ℕ = s + config.chunk_size in
      let (e, found, bounds) = scan_back_bounds text (end - l) end end (omega arith) h in
      (e, rw (pos-add, low, pos_part-sub) found, ground arith, ground arith)
