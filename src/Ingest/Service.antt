-- ===== src/Ingest/Service.antt =====
-- ingestion/ingest_service.py: `IngestService`. The chunker, the embedder, the parsers of files and
-- the object store are parameters: `none` is an exception, or for a download a failure. The graph and
-- the search index are fed without a way to fail, and their contents are left out.
use agentic_rag_backend.Base.{
  ℕ, Bool, false, Option, none, some, List, [], ◌∷◌, map, length, if◌then◌else◌,
}
use agentic_rag_backend.Base.Text.{Text, text_eq}
use agentic_rag_backend.Chunker.Config.{DocumentChunk}
use agentic_rag_backend.Http.{Reply, ok, refused, failed, ◌>>=◌, ◌>>◌, pure, read}
use agentic_rag_backend.Ingest.{StoredChunk, stale_ids, chunks_to_embed}
use agentic_rag_backend.Ingest.Documents.{
  Document, EmbeddedChunk, ChunkRow, Corpus, State, Draw, Source, Job, get_document_by_source,
  get_document_chunks, upsert_document, delete_chunks_by_ids, save_chunks, stored,
}

pub data Status : Type 0 where
  inserted : Status
  updated : Status
  skipped : Status
  failure : Status

-- `IngestResult`; the text of an exception is a parameter.
pub record IngestResult : Type 0 where
  pub source : Text
  pub status : Status
  pub document_id : Option Text
  pub chunks_created : ℕ
  pub error : Option Text

-- The chunker, `embed_chunks` and the hash.
pub record Pipeline (V : Type 0) : Type 0 where
  pub sha256 : Text → Text
  pub chunker : Source → Option (List DocumentChunk)
  pub embedder : List DocumentChunk → Option (List (EmbeddedChunk V))
  pub exception : Text

abbrev pub content_of : DocumentChunk → Text
content_of c = c.content

-- `existing["content_hash"] == content_hash`
unfoldable pub same_hash : Option Text → Text → Bool
same_hash none h = false
same_hash (some k) h = text_eq k h

abbrev pub failed_result : Text → Text → IngestResult
failed_result source error = record {
  source = source;
  status = failure;
  document_id = none;
  chunks_created = 0;
  error = some error;
}

abbrev pub result : Text → Status → Text → ℕ → IngestResult
result source status document_id n = record {
  source = source;
  status = status;
  document_id = some document_id;
  chunks_created = n;
  error = none;
}

module _ (V : Type 0) (d : Corpus V) (p : Pipeline V) where
  unfoldable pub bump : Job V d (Unit {0})
  bump s = (record s { cache = d.bump_version s.cache }, ok tt)

  -- Embedding and saving, and the end of the `try`.
  unfoldable pub index_chunks :
      Draw → Source → Text → Status → List DocumentChunk → Job V d IngestResult
  index_chunks draw x document_id status chunks = do
    embedded ← read (λ s. p.embedder chunks)
    rows ← save_chunks V d p.sha256 draw document_id embedded
    bump
    pure (result x.source status document_id (length embedded))

  -- The rest of an update, behind the upsert: nothing is left to embed, or some chunks are.
  unfoldable pub index_changed : Draw → Source → Text → List DocumentChunk → Job V d IngestResult
  index_changed draw x document_id [] = pure (result x.source updated document_id 0)
  index_changed draw x document_id (c ∷ chunks) =
      index_chunks draw x document_id updated (c ∷ chunks)

  unfoldable pub update_existing :
      Draw → Source → Document → List DocumentChunk → Job V d IngestResult
  update_existing draw x doc chunks = do
    rows ← get_document_chunks V d doc.id
    let old_chunks = map {A = ChunkRow V} {B = StoredChunk} stored rows
    delete_chunks_by_ids V d (stale_ids p.sha256 content_of chunks old_chunks)
    document_id ← upsert_document V d draw x (p.sha256 x.content)
    index_changed draw x doc.id (chunks_to_embed p.sha256 content_of chunks old_chunks)

  unfoldable pub insert_new : Draw → Source → List DocumentChunk → Job V d IngestResult
  insert_new draw x chunks = do
    document_id ← upsert_document V d draw x (p.sha256 x.content)
    index_chunks draw x document_id inserted chunks

  unfoldable pub ingest_changed : Draw → Source → Option Document → Job V d IngestResult
  ingest_changed draw x none = do chunks ← read (λ s. p.chunker x); insert_new draw x chunks
  ingest_changed draw x (some doc) =
      if same_hash doc.content_hash (p.sha256 x.content)
      then pure (result x.source skipped doc.id 0)
      else (do chunks ← read (λ s. p.chunker x); update_existing draw x doc chunks)

  -- The body of the `try`.
  unfoldable pub ingest_body : Draw → Source → Job V d IngestResult
  ingest_body draw x = do
    existing ← get_document_by_source V d x.source
    ingest_changed draw x existing

  -- `except Exception`
  unfoldable pub caught : Source → State V d × Reply IngestResult → State V d × IngestResult
  caught x (s, ok r) = (s, r)
  caught x (s, refused status detail) = (s, failed_result x.source p.exception)
  caught x (s, failed) = (s, failed_result x.source p.exception)

  unfoldable pub ingest_document : Draw → Source → State V d → State V d × IngestResult
  ingest_document draw x s = caught x (ingest_body draw x s)
