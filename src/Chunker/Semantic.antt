-- ===== src/Chunker/Semantic.antt =====
-- The splitting by a language model of ingestion/chunker.py: `_split_on_structure`,
-- `_is_tabular_data`, `_split_long_section`, `_semantic_chunk` and
-- `SemanticChunker.chunk_document`. The model is `llm`: `none` is an exception or a timeout.
pub mod Sections
use mathlib.Core.List.{flat_map}
use agentic_rag_backend.Base.{
  ℕ, zero, suc, ◌+◌, ◌*◌, Bool, true, false, ◌||◌, ◌&&◌, not, Option, none, some, List, [], ◌∷◌,
  ◌++◌, map, ltb, leb, ◌==◌, if◌then◌else◌, length, take, drop, keep_if,
}
use agentic_rag_backend.Base.Decimal.{show}
use agentic_rag_backend.Base.Dict
use agentic_rag_backend.Base.Outcome.{Outcome, returned, raised, out_of_fuel, ◌>>=◌}
use agentic_rag_backend.Base.Regex.{Re, chr, star, lazy, plus, up_to, all_of, lit, split_keep}
use agentic_rag_backend.Base.Text.{
  Text, Unicode, codes, strip, is_empty, starts_with, join, split_char, cons_head, count_char,
}
use agentic_rag_backend.Chunker.Config.{ChunkingConfig, DocumentChunk, Metadata, str}
use agentic_rag_backend.Chunker.Split.{simple_split}
use agentic_rag_backend.Chunker.Spans.{create_chunk_objects, simple_chunk}

abbrev sum_of : List ℕ → ℕ
sum_of [] = 0
sum_of (n ∷ ns) = n + sum_of ns

abbrev is_digit : Option ℕ → Bool
is_digit none = false
is_digit (some _) = true

-- `text.split(sep)`; a round takes one character at least.
unfoldable pub split_text : Text → ℕ → Text → List Text
split_text sep fuel [] = [] ∷ []
split_text sep zero (c ∷ t) = (c ∷ t) ∷ []
split_text sep (suc fuel) (c ∷ t) =
    let next = cons_head c (split_text sep fuel t) in
    let break = [] ∷ split_text sep fuel (drop (length sep) (c ∷ t)) in
    if starts_with sep (c ∷ t) then break else next

module _ (u : Unicode) where
  blank : Re
  blank = chr u.is_space

  newline : Re
  newline = lit (10 ∷ [])

  -- `.` under `re.DOTALL`
  dot : Re
  dot = chr (λ _. true)

  -- The patterns of `_split_on_structure`: headers, paragraph breaks, list items, numbered lists,
  -- code blocks and rows of tables.
  unfoldable pub structure_patterns : List Re
  unfolding blank newline dot
  structure_patterns =
      all_of (
        newline
        ∷ lit (codes "#")
        ∷ up_to 5 (lit (codes "#"))
        ∷ plus blank
        ∷ dot
        ∷ lazy dot
        ∷ newline
        ∷ [])
      ∷ all_of (newline ∷ plus newline ∷ [])
      ∷ all_of (newline ∷ chr (λ c. c == b'-' || c == b'*' || c == b'+') ∷ plus blank ∷ [])
      ∷ all_of
          (newline ∷ plus (chr (λ c. is_digit (u.digit c))) ∷ lit (codes ".") ∷ plus blank ∷ [])
      ∷ all_of (newline ∷ lit (codes "```") ∷ lazy dot ∷ lit (codes "```") ∷ newline ∷ [])
      ∷ all_of (
          newline
          ∷ lit (codes "|")
          ∷ star blank
          ∷ dot
          ∷ lazy dot
          ∷ lit (codes "|")
          ∷ star blank
          ∷ newline
          ∷ [])
      ∷ []

  unfoldable pub has_ink : Text → Bool
  has_ink part = not (is_empty (strip u part))

  -- The loop over the patterns.
  unfoldable pub split_all : List Re → List Text → List Text
  split_all [] sections = sections
  split_all (r ∷ rs) sections =
      split_all rs (flat_map (λ section. keep_if has_ink (split_keep u r section)) sections)

  unfoldable pub split_on_structure : Text → List Text
  split_on_structure content = split_all structure_patterns (content ∷ [])

  -- `sum(counts) / len(counts) >= 3`, for counts that are some
  unfoldable pub average_is_3 : List ℕ → Bool
  average_is_3 [] = false
  average_is_3 (n ∷ counts) = leb (3 * length (n ∷ counts)) (sum_of (n ∷ counts))

  unfoldable pub is_tabular_data : Text → Bool
  is_tabular_data text =
      let lines = take 10 (split_char 10 text) in
      let inked = keep_if has_ink lines in
      if ltb (length lines) 2
      then false
      else average_is_3 (map (count_char 9) inked) || average_is_3 (map (count_char b',') inked)

  module _ (config : ChunkingConfig) (llm : Text → Option Text) (fuel : ℕ) where
    -- The indentation of the prompt in the source.
    margin : Text
    margin = codes "            "

    unfoldable pub split_prompt : Text → Text
    unfolding margin
    split_prompt section = join (10 ∷ []) (
        []
        ∷ (margin
            ++ codes
                "Split the following text into semantically coherent chunks. Each chunk should:")
        ∷ (margin
            ++ (codes "1. Be roughly " ++ (show config.chunk_size ++ codes " characters long")))
        ∷ (margin ++ codes "2. End at natural semantic boundaries")
        ∷ (margin ++ codes "3. Maintain context and readability")
        ∷ (margin
            ++ (codes "4. Not exceed " ++ (show config.max_chunk_size ++ codes " characters")))
        ∷ margin
        ∷ (margin
            ++ codes "Return only the split text with \"---CHUNK---\" as separator between chunks.")
        ∷ margin
        ∷ (margin ++ codes "Text to split:")
        ∷ (margin ++ section)
        ∷ margin
        ∷ [])

    -- The chunks of a reply that have a valid length.
    unfoldable pub valid_chunks : Text → List Text
    valid_chunks result =
        keep_if
          (λ chunk.
            leb config.min_chunk_size (length chunk) && leb (length chunk) config.max_chunk_size)
          (map (strip u) (split_text (codes "---CHUNK---") (length result) result))

    unfoldable pub split_long_section : Text → Outcome (List Text)
    split_long_section section = elim (is_tabular_data section || ltb 20000 (length section)) [
      | true ↦ simple_split config section fuel
      | false ↦ elim (llm (split_prompt section)) [
        | none ↦ simple_split config section fuel
        | some result ↦ elim (valid_chunks result) [
          | [] ↦ simple_split config section fuel
          | chunk ∷ chunks ↦ returned (chunk ∷ chunks)
        ]
      ]
    ]

    -- The chunk that ends here, if there is one.
    unfoldable pub flush : Text → List Text → List Text
    flush current chunks = if is_empty current then chunks else strip u current ∷ chunks

    unfoldable pub join_section : Text → Text → Text
    join_section current section =
        if is_empty current then section else current ++ (10 ∷ 10 ∷ section)

    -- The loop over the sections and the last chunk. `current` is `current_chunk`.
    unfoldable pub group_sections : Text → List Text → Outcome (List Text)
    group_sections current [] = returned (flush current [])
    group_sections current (section ∷ sections) =
        elim (leb (length (join_section current section)) config.chunk_size) [
          | true ↦ group_sections (join_section current section) sections
          | false ↦ elim (ltb config.max_chunk_size (length section)) [
            | true ↦ split_long_section section >>= λ sub_chunks.
                group_sections [] sections >>= λ rest. returned (flush current (sub_chunks ++ rest))
            | false ↦ group_sections section sections >>= λ rest. returned (flush current rest)
          ]
        ]

    unfoldable pub semantic_chunk : Text → Outcome (List Text)
    semantic_chunk content = group_sections [] (split_on_structure content) >>= λ chunks.
        returned (keep_if (λ chunk. leb config.min_chunk_size (length (strip u chunk))) chunks)

    unfoldable pub put_all : Metadata → Metadata → Metadata
    put_all [] m = m
    put_all ((k, v) ∷ new) m = put_all new (Dict.put k v m)

    -- `in_time` says whether `_semantic_chunk` ends within its 60 seconds.
    unfoldable pub chunk_document :
        Bool → Text → Text → Text → Metadata → Outcome (List DocumentChunk)
    chunk_document in_time content title source metadata =
        let base =
          put_all metadata ((codes "title", str title) ∷ (codes "source", str source) ∷ []) in
        let simple = simple_chunk u config fuel content base in
        elim (is_empty (strip u content)) [
          | true ↦ returned []
          | false ↦ elim (is_tabular_data content || leb 500000 (length content)) [
            | true ↦ simple
            | false ↦
                elim (config.use_semantic_splitting
                  && ltb config.chunk_size (length content)
                  && in_time) [
                    | false ↦ simple
                    | true ↦ elim (semantic_chunk content) [
                      | returned [] ↦ simple
                      | returned (chunk ∷ chunks) ↦
                          returned (create_chunk_objects u config content base (chunk ∷ chunks))
                      | raised ↦ simple
                      | out_of_fuel ↦ out_of_fuel
                    ]
                  ]
          ]
        ]
