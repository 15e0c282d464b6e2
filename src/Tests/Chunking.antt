-- ===== src/Tests/Chunking.antt =====
-- The theorems on ingestion/chunker.py at concrete inputs.
use agentic_rag_backend.Base.{suc, ◌≡◌, refl, inl, List, [], ◌∷◌, All, length, arith}
use agentic_rag_backend.Base.Int.{◌+ℤ◌, ◌-ℤ◌, max_ℤ}
use agentic_rag_backend.Base.Outcome.{returned, out_of_fuel}
use agentic_rag_backend.Base.Text.{Text, codes, strip, lstrip, rstrip}
use agentic_rag_backend.Chunker.Config.{ChunkingConfig, default_config}
use agentic_rag_backend.Chunker.Split.{
  chunk_end_at, scan_back, py_index, is_sentence_end, simple_split,
}
use agentic_rag_backend.Chunker.Split.Covers.{stitch, Fits, simple_split_covers}
use agentic_rag_backend.Chunker.Split.Stuck.{simple_split_diverges}
use agentic_rag_backend.Chunker.Spans.{create_chunk_objects}
use agentic_rag_backend.Chunker.Spans.Places.{Placed, create_chunk_objects-Placed}
use agentic_rag_backend.Chunker.Paragraphs.{split_paragraphs, chunk_document, blank_end}
use agentic_rag_backend.Chunker.Paragraphs.Keeps.{all_ink, contents, ink-chunk_document}
use agentic_rag_backend.Chunker.Paragraphs.Bounds.{Numbered, chunk_document-Numbered}
use agentic_rag_backend.Base.Regex
use agentic_rag_backend.Base.Regex.Pieces.{joined}
use agentic_rag_backend.Base.Text.{ink}
use agentic_rag_backend.Chunker.Semantic
use agentic_rag_backend.Chunker.Semantic.{split_on_structure}
use agentic_rag_backend.Chunker.Semantic.Sections.{ink-split_on_structure}
use agentic_rag_backend.Tests.Sample.{ascii}

abbrev small_config : ChunkingConfig
small_config = record default_config { chunk_size = 12; chunk_overlap = 4; min_chunk_size = 6 }

abbrev two_sentences : Text
two_sentences = codes "One line. Two lines. Three."

simple_split_covers_example :
    (chunks : List Text) × (simple_split small_config two_sentences (suc (length two_sentences))
      ≡ returned chunks)
    × (stitch small_config.chunk_overlap chunks ≡ two_sentences)
    × All (Fits small_config) chunks
simple_split_covers_example =
    simple_split_covers small_config two_sentences (omega arith, inl (omega arith))

-- A configuration that passes the validation, and a text whose first window has its last sentence
-- end just before the overlap.
abbrev stuck_config : ChunkingConfig
stuck_config = record default_config { chunk_size = 12; chunk_overlap = 5; min_chunk_size = 1 }

abbrev stuck_text : Text
stuck_text = codes "Stop. no other sentence end"

simple_split_diverges_example : simple_split stuck_config stuck_text 100 ≡ out_of_fuel
unfolding chunk_end_at scan_back py_index is_sentence_end ◌+ℤ◌ ◌-ℤ◌ max_ℤ
simple_split_diverges_example = simple_split_diverges stuck_config stuck_text (omega arith) refl 100

abbrev pieces : List Text
pieces = codes "One line." ∷ codes "ine. Two" ∷ []

create_chunk_objects-Placed_example :
    Placed ascii two_sentences 2 0 0 pieces
      (create_chunk_objects ascii small_config two_sentences [] pieces)
create_chunk_objects-Placed_example =
    create_chunk_objects-Placed ascii small_config two_sentences [] pieces

-- Two paragraphs with an empty line between.
abbrev page : Text
page = b'A' ∷ b'b' ∷ 10 ∷ 10 ∷ b'c' ∷ []

ink-chunk_document_example :
    all_ink ascii (contents (chunk_document ascii small_config [] page)) ≡ codes "Abc"
ink-chunk_document_example = ink-chunk_document ascii refl small_config [] page

chunk_document-Numbered_example : Numbered 12 0 (chunk_document ascii small_config [] page)
unfolding split_paragraphs blank_end strip lstrip rstrip
chunk_document-Numbered_example =
    chunk_document-Numbered ascii small_config [] page (omega arith, (omega arith, tt))

-- A header between two paragraphs.
abbrev outline : Text
outline = b'a' ∷ 10 ∷ b'#' ∷ b' ' ∷ b'T' ∷ 10 ∷ b'b' ∷ 10 ∷ 10 ∷ b'c' ∷ []

split_on_structure_run :
    split_on_structure ascii outline
    ≡ codes "a" ∷ (10 ∷ b'#' ∷ b' ' ∷ b'T' ∷ 10 ∷ []) ∷ codes "b" ∷ codes "c" ∷ []
unfolding split_on_structure Semantic.structure_patterns Semantic.split_all Semantic.has_ink
    Regex.split_keep Regex.split_from Regex.first_move Regex.run Regex.star_from Regex.lazy_from
    Regex.chr_at Regex.shorter strip lstrip rstrip mathlib.Core.List.flat_map
split_on_structure_run = refl

ink-split_on_structure_example :
    ink ascii (joined (split_on_structure ascii outline)) ≡ codes "a#Tbc"
ink-split_on_structure_example = ink-split_on_structure ascii outline
