-- ===== src/Chunker/Split/Covers.antt =====
-- `_simple_split` ends, and its pieces overlap by exactly `chunk_overlap` and cover the text.
use agentic_rag_backend.Base.{
  ℕ, zero, suc, ◌+◌, ◌-◌, ◌≤◌, ◌<◌, ◌≡◌, ap, sym, ◌∙◌, ◌⊎◌, some, List, [], ◌∷◌, ◌++◌, arith,
  length, length-take, length-drop, take, drop, drop-drop, drop-take, take-append-drop_at,
  drop_of_length-le, All, min, append-nil,
}
use agentic_rag_backend.Base.Int.{pos, pos-add, pos-sub, pos-ltb}
use native.Mathlib.Decide.{dec_lt}
use agentic_rag_backend.Base.Outcome.{returned}
use agentic_rag_backend.Base.Text.{Text}
use agentic_rag_backend.Chunker.Config.{ChunkingConfig}
use agentic_rag_backend.Chunker.Split.{
  clip, py_slice, py_slice_from, chunk_end_at, split_loop, simple_split,
}
use agentic_rag_backend.Chunker.Split.Step.{chunk_end_bounds}

-- The pieces behind the first, each without the characters that it repeats.
abbrev pub rest_of : ℕ → List Text → Text
rest_of overlap [] = []
rest_of overlap (c ∷ cs) = drop overlap c ++ rest_of overlap cs

-- The text that pieces with a common overlap stand for.
abbrev pub stitch : ℕ → List Text → Text
stitch overlap [] = []
stitch overlap (c ∷ cs) = c ++ rest_of overlap cs

-- Every round moves forward: the overlap is smaller than the shortest window.
abbrev pub Progresses : ChunkingConfig → Type 0
Progresses config =
    (config.chunk_overlap < config.chunk_size)
    × ((config.chunk_overlap < config.min_chunk_size + 2)
        ⊎ (config.chunk_overlap + 198 < config.chunk_size))

-- Not empty, and at most one character longer than `chunk_size`.
abbrev pub Fits : ChunkingConfig → Text → Type 0
Fits config c = (0 < length c) × (length c ≤ config.chunk_size + 1)

slice_pos :
    (text : Text) (s e : ℕ)
    → s ≤ length text
    → e ≤ length text
    → py_slice text (pos s) (pos e) ≡ take (e - s) (drop s text)
unfolding py_slice clip
slice_pos text s e hs he = rw (min_left s hs, min_left e he)
  where
    min_left : (n : ℕ) → n ≤ length text → min n (length text) ≡ n
    min_left n h = omega arith

module _ (config : ChunkingConfig) (text : Text) (p : Progresses config) where
  round :
      (s : ℕ)
      → s + config.chunk_size < length text
      → (e : ℕ) × (chunk_end_at config text (pos s) ≡ some (pos e))
        × (e ≤ s + config.chunk_size + 1)
        × (s + config.chunk_overlap < e)
  round s h =
      let (e, found, top, far) = chunk_end_bounds config text s h in (e, found, top, omega arith)

  loop_done :
      (fuel s : ℕ) → length text ≤ s → split_loop config text (suc fuel) (pos s) ≡ returned []
  unfolding split_loop
  loop_done fuel s h = ground (arith, pos-ltb s (length text))

  loop_last :
      (fuel s : ℕ)
      → s < length text
      → length text ≤ s + config.chunk_size
      → split_loop config text (suc fuel) (pos s) ≡ returned (drop s text ∷ [])
  unfolding split_loop py_slice_from clip
  loop_last fuel s h k =
      let at_s : min s (length text) ≡ s = omega arith in
      ground (
        arith,
        pos-ltb s (length text),
        pos-ltb (s + config.chunk_size) (length text),
        pos-add s config.chunk_size,
        at_s,
      )

  loop_more :
      (fuel s e : ℕ) {rest : List Text}
      → s + config.chunk_size < length text
      → chunk_end_at config text (pos s) ≡ some (pos e)
      → e ≤ length text
      → config.chunk_overlap ≤ e
      → split_loop config text fuel (pos (e - config.chunk_overlap)) ≡ returned rest
      → split_loop config text (suc fuel) (pos s) ≡ returned (take (e - s) (drop s text) ∷ rest)
  unfolding split_loop
  loop_more fuel s e h found within back next = ground (
    arith,
    pos-ltb s (length text),
    pos-ltb (s + config.chunk_size) (length text),
    pos-add s config.chunk_size,
    pos-sub e config.chunk_overlap,
    slice_pos text s e,
  )

  -- What `loop-Covers` shows of the pieces from `s` on.
  record Covers (s : ℕ) (chunks : List Text) : Type 0 where
    behind : rest_of config.chunk_overlap chunks ≡ drop (s + config.chunk_overlap) text
    whole : stitch config.chunk_overlap chunks ≡ drop s text
    fit : All (Fits config) chunks

  Covers-none : (s : ℕ) → length text ≤ s → Covers s []
  Covers-none s h = record {
    behind = sym (drop_of_length-le (s + config.chunk_overlap) text (omega arith));
    whole = sym (drop_of_length-le s text h);
    fit = tt;
  }

  Covers-last :
      (s : ℕ) → s < length text → length text ≤ s + config.chunk_size → Covers s (drop s text ∷ [])
  Covers-last s h k = record {
    behind = append-nil _ ∙ drop-drop s config.chunk_overlap text;
    whole = append-nil _;
    fit = ((omega (arith, length-drop s text), omega (arith, length-drop s text)), tt);
  }

  Covers-more :
      (s e : ℕ) (rest : List Text)
      → s + config.chunk_overlap < e
      → e ≤ length text
      → e ≤ s + config.chunk_size + 1
      → Covers (e - config.chunk_overlap) rest
      → Covers s (take (e - s) (drop s text) ∷ rest)
  Covers-more s e rest far within top c =
      let k : ℕ = config.chunk_overlap in
      let back : e - k + k ≡ e = omega arith in
      let tail : rest_of k rest ≡ drop e text = c.behind ∙ ap (λ n. drop n text) back in
      record {
        behind =
            rw (tail, drop-take, drop-drop s k text)
              (take-append-drop_at (s + k) (e - s - k) e text (omega arith));
        whole = rw tail (take-append-drop_at s (e - s) e text (omega arith));
        fit = (omega (arith, length-take (e - s) (drop s text), length-drop s text), c.fit);
      }

  loop-Covers :
      (fuel s : ℕ)
      → length text < fuel + s
      → s ≤ length text
      → (chunks : List Text) × (split_loop config text fuel (pos s) ≡ returned chunks)
        × Covers s chunks
  loop-Covers zero s enough fits = absurd (omega arith)
  loop-Covers (suc fuel) s enough fits = elim (dec_lt s (length text)) [
    | no done ↦ ([], loop_done fuel s (omega arith), Covers-none s (omega arith))
    | yes more ↦ elim (dec_lt (s + config.chunk_size) (length text)) [
      | no last ↦
          (drop s text ∷ [], loop_last fuel s more (omega arith), Covers-last s more (omega arith))
      | yes far ↦
          let (e, found, top, ahead) = round s far in
          let within : e ≤ length text = omega arith in
          let (rest, next, covers) =
            loop-Covers fuel (e - config.chunk_overlap) (omega arith) (omega arith) in
          (
            take (e - s) (drop s text) ∷ rest,
            loop_more fuel s e far found within (omega arith) next,
            Covers-more s e rest ahead within top covers,
          )
    ]
  ]

  -- Where every round moves forward, the splitter ends with as much fuel as the text has
  -- characters, and one more. Dropping the repeated characters from its pieces gives the text
  -- back, and each piece is nonempty and at most one character longer than `chunk_size`.
  pub simple_split_covers :
      (chunks : List Text) × (simple_split config text (suc (length text)) ≡ returned chunks)
      × (stitch config.chunk_overlap chunks ≡ text)
      × All (Fits config) chunks
  unfolding simple_split
  simple_split_covers =
      let (chunks, ends, covers) = loop-Covers (suc (length text)) 0 (omega arith) (omega arith) in
      (chunks, ends, covers.whole, covers.fit)
