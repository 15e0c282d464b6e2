-- ===== src/Chunker/Split.antt =====
-- `SemanticChunker._simple_split` of ingestion/chunker.py. Positions are signed, as in Python: a
-- large overlap can move `start` below zero.
pub mod Step
pub mod Covers
pub mod Stuck
use agentic_rag_backend.Base.{
  ℕ, zero, suc, ◌-◌, Bool, true, false, ◌||◌, Option, none, some, List, [], ◌∷◌, ltb, ◌==◌,
  if◌then◌else◌, length, get_elem?, take, drop, min,
}
use agentic_rag_backend.Base.Int.{ℤ, pos, negsuc, pos_part, ◌+ℤ◌, ◌-ℤ◌, ltb_ℤ, max_ℤ}
use agentic_rag_backend.Base.Outcome.{Outcome, returned, raised, out_of_fuel, ◌>>=◌}
use agentic_rag_backend.Base.Text.{Text}
use agentic_rag_backend.Chunker.Config.{ChunkingConfig}

-- `text[i]`; `none` is an IndexError
unfoldable pub py_index : Text → ℤ → Option ℕ
py_index text (pos n) = get_elem? text n
py_index text (negsuc n) =
    if ltb (length text) (suc n) then none else get_elem? text (length text - suc n)

-- A slice bound, counted from the end if it is negative.
unfoldable pub clip : ℕ → ℤ → ℕ
clip len (pos n) = min n len
clip len (negsuc n) = len - suc n

-- `text[a:b]` and `text[a:]`
unfoldable pub py_slice : Text → ℤ → ℤ → Text
py_slice text a b =
    take (clip (length text) b - clip (length text) a) (drop (clip (length text) a) text)

unfoldable pub py_slice_from : Text → ℤ → Text
py_slice_from text a = drop (clip (length text) a) text

-- `text[i] in ".!?\n"`
unfoldable pub is_sentence_end : ℕ → Bool
is_sentence_end c = c == b'.' || c == b'!' || c == b'?' || c == 10

-- `for i in range(end, low, -1)`, with the rounds that are left: the position behind the first
-- sentence end, or `chunk_end` as it was.
unfoldable pub scan_back : Text → ℕ → ℤ → ℤ → Option ℤ
scan_back text zero i chunk_end = some chunk_end
scan_back text (suc rounds) i chunk_end =
    let rest = scan_back text rounds (i -ℤ pos 1) chunk_end in
    elim (py_index text i) [
      | none ↦ none
      | some c ↦ (if is_sentence_end c then some (i +ℤ pos 1) else rest)
    ]

module _ (config : ChunkingConfig) (text : Text) where
  -- The `chunk_end` of a round that starts at `start` and is not the last.
  unfoldable pub chunk_end_at : ℤ → Option ℤ
  chunk_end_at start =
      let end = start +ℤ pos config.chunk_size in
      let low = max_ℤ (start +ℤ pos config.min_chunk_size) (end -ℤ pos 200) in
      scan_back text (pos_part (end -ℤ low)) end end

  -- `while start < len(text)`
  unfoldable pub split_loop : ℕ → ℤ → Outcome (List Text)
  split_loop zero start = out_of_fuel
  split_loop (suc fuel) start = elim (ltb_ℤ start (pos (length text))) [
    | true ↦ elim (ltb_ℤ (start +ℤ pos config.chunk_size) (pos (length text))) [
      | true ↦ elim (chunk_end_at start) [
        | none ↦ raised
        | some chunk_end ↦ split_loop fuel (chunk_end -ℤ pos config.chunk_overlap) >>= λ rest.
            returned (py_slice text start chunk_end ∷ rest)
      ]
      | false ↦ returned (py_slice_from text start ∷ [])
    ]
    | false ↦ returned []
  ]

  -- The whole splitter, which starts at 0.
  unfoldable pub simple_split : ℕ → Outcome (List Text)
  simple_split fuel = split_loop fuel (pos 0)
