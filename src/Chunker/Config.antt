-- ===== src/Chunker/Config.antt =====
-- `ChunkingConfig` and `DocumentChunk` of ingestion/chunker.py. Sizes are non-negative.
use agentic_rag_backend.Base.{
  List, ℕ, ◌/◌, Bool, true, Option, none, some, leb, if◌then◌else◌, length,
}
use agentic_rag_backend.Base.Outcome.{Outcome, returned, raised}
use agentic_rag_backend.Base.Text.{Text}

pub record ChunkingConfig : Type 0 where
  pub chunk_size : ℕ
  pub chunk_overlap : ℕ
  pub max_chunk_size : ℕ
  pub min_chunk_size : ℕ
  pub use_semantic_splitting : Bool
  pub preserve_structure : Bool

-- The values that the dataclass gives when no argument is passed.
abbrev pub default_config : ChunkingConfig
default_config = record {
  chunk_size = 1000;
  chunk_overlap = 200;
  max_chunk_size = 2000;
  min_chunk_size = 100;
  use_semantic_splitting = true;
  preserve_structure = true;
}

-- `ChunkingConfig.__post_init__`
unfoldable pub validated : ChunkingConfig → Outcome ChunkingConfig
validated c =
    if leb c.chunk_size c.chunk_overlap
    then raised
    else if leb c.min_chunk_size 0
    then raised
    else returned c

-- A metadata value: a text or a number.
pub data Field : Type 0 where
  str : Text → Field
  num : ℕ → Field

abbrev pub Metadata : Type 0
Metadata = List (Text × Field)

pub record DocumentChunk : Type 0 where
  pub content : Text
  pub index : ℕ
  pub start_char : ℕ
  pub end_char : ℕ
  pub metadata : Metadata
  pub token_count : ℕ

-- `DocumentChunk.__post_init__`: about four characters to a token.
unfoldable pub new_chunk : Text → ℕ → ℕ → ℕ → Metadata → Option ℕ → DocumentChunk
new_chunk content index start_char end_char metadata token_count = record {
  content = content;
  index = index;
  start_char = start_char;
  end_char = end_char;
  metadata = metadata;
  token_count = elim token_count [ none ↦ length content / 4 | some n ↦ n ];
}
