-- ===== src/Ingest.antt =====
-- The chunk-level diff of `ingest_document` in ingestion/ingest_service.py: which stored chunks of a
-- changed document go, and which new chunks are embedded. The hash is a parameter.
pub mod Exact
pub mod Documents
pub mod Service
pub mod Bulk
pub mod Counts
pub mod Repeat
pub mod Rows
pub mod Indexed
pub mod Whole
use agentic_rag_backend.Base.{
  Bool, true, false, not, Option, none, some, List, [], ◌∷◌, map, keep_if, any, if◌then◌else◌,
}
use agentic_rag_backend.Base.Dict
use agentic_rag_backend.Base.Text.{Text, is_empty, text_eq}

-- A row of the table of chunks; `none` is a missing hash.
pub record StoredChunk : Type 0 where
  pub id : Text
  pub content_hash : Option Text

-- `h in d`, for a dictionary and for a hash that may be missing
unfoldable pub has : {C : Type 0} → Text → List (Text × C) → Bool
has h d = elim (Dict.get h d) [ none ↦ false | some c ↦ true ]

unfoldable pub has_hash : {C : Type 0} → List (Text × C) → Option Text → Bool
has_hash d none = false
has_hash d (some h) = has h d

-- The hashes of `old_hashes`: missing and empty ones are passed over.
unfoldable pub old_hashes : List StoredChunk → List Text
old_hashes [] = []
old_hashes (r ∷ rows) =
    let rest = old_hashes rows in
    elim r.content_hash [ none ↦ rest | some h ↦ (if is_empty h then rest else h ∷ rest) ]

-- The chunks are of any type that has their contents: `c.content`.
module _ (sha256 : Text → Text) {C : Type 0} (content : C → Text) where
  -- `{_sha256(c.content): c for c in chunks}`, into `d`
  unfoldable pub hashed : List C → List (Text × C) → List (Text × C)
  hashed [] d = d
  hashed (c ∷ chunks) d = hashed chunks (Dict.put (sha256 (content c)) c d)

  unfoldable pub new_chunk_hashes : List C → List (Text × C)
  new_chunk_hashes chunks = hashed chunks []

  -- `r.get("content_hash") not in new_chunk_hashes`
  unfoldable pub is_stale : List C → StoredChunk → Bool
  is_stale chunks r = not (has_hash (new_chunk_hashes chunks) r.content_hash)

  unfoldable pub stale_ids : List C → List StoredChunk → List Text
  stale_ids chunks old_chunks =
      map {A = StoredChunk} (λ r. r.id) (keep_if (is_stale chunks) old_chunks)

  unfoldable pub chunks_to_embed : List C → List StoredChunk → List C
  chunks_to_embed chunks old_chunks =
      map {A = Text × C} (λ e. e.1)
        (keep_if (λ e. not (any (text_eq e.0) (old_hashes old_chunks))) (new_chunk_hashes chunks))
