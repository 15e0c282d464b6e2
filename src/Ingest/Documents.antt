-- ===== src/Ingest/Documents.antt =====
-- agent/db_utils.py: the tables of documents and chunks, and the functions that the ingestion calls.
use agentic_rag_backend.Base.{ℕ, suc, Bool, Option, none, some, List, [], ◌∷◌, any}
use mathlib.Core.Option
use agentic_rag_backend.Base.Text.{Text, text_eq}
use agentic_rag_backend.Chunker.Config.{DocumentChunk, Metadata}
use agentic_rag_backend.Database.{Table}
use agentic_rag_backend.Http.{Action, ◌>>=◌, ◌>>◌, pure, read, write}
use agentic_rag_backend.Ingest.{StoredChunk}

pub record Document : Type 0 where
  pub id : Text
  pub title : Text
  pub source : Text
  pub content : Text
  pub content_hash : Option Text
  pub metadata : Metadata
  pub access_level : Text

-- A chunk with its embedding of type `V`, where it has one.
pub record EmbeddedChunk (V : Type 0) : Type 0 where
  pub chunk : DocumentChunk
  pub embedding : Option V

-- A row of the table of chunks.
pub record ChunkRow (V : Type 0) : Type 0 where
  pub id : Text
  pub document_id : Text
  pub content : Text
  pub content_hash : Option Text
  pub embedding : Option V
  pub chunk_index : ℕ
  pub token_count : ℕ
  pub metadata : Metadata

-- The tables, and the retrieval cache with what invalidates it: `query_cache.bump_version`.
pub record Corpus (V : Type 0) : Type 1 where
  pub documents : Table Document
  pub chunks : Table (ChunkRow V)
  pub Cache : Type 0
  pub bump_version : Cache → Cache

pub record State (V : Type 0) (d : Corpus V) : Type 0 where
  pub documents : d.documents.Store
  pub chunks : d.chunks.Store
  pub cache : d.Cache

-- The identifiers that are drawn: of a new document, and of the rows that are saved.
pub record Draw : Type 0 where
  pub document_id : Text
  pub row_id : ℕ → Text

-- What a caller says of a document.
pub record Source : Type 0 where
  pub content : Text
  pub source : Text
  pub title : Text
  pub metadata : Metadata
  pub access_level : Text

abbrev pub of_source : Text → Document → Bool
of_source source r = text_eq r.source source

abbrev pub document_of_id : Text → Document → Bool
document_of_id id r = text_eq r.id id

abbrev pub of_document : {V : Type 0} → Text → ChunkRow V → Bool
of_document document_id r = text_eq r.document_id document_id

-- `.in_("id", ids)`
abbrev pub of_ids : {V : Type 0} → List Text → ChunkRow V → Bool
of_ids ids r = any (text_eq r.id) ids

module _ (V : Type 0) (d : Corpus V) where
  abbrev pub Job : Type 0 → Type 0
  Job A = Action (State V d) A

  unfoldable pub get_document_by_source : Text → Job (Option Document)
  get_document_by_source source = read (λ s. d.documents.first (of_source source) s.documents)

  unfoldable pub get_document : Text → Job (Option Document)
  get_document id = read (λ s. d.documents.first (document_of_id id) s.documents)

  unfoldable pub update_document : (Document → Bool) → (Document → Document) → Job (Unit {0})
  update_document p f =
      write λ s. Option.map (λ t. record s { documents = t }) (d.documents.update p f s.documents)

  unfoldable pub insert_document : Document → Job (Unit {0})
  insert_document x =
      write λ s. Option.map (λ t. record s { documents = t }) (d.documents.insert x s.documents)

  -- The fields that `upsert_document` updates; `access_level` is not one of them.
  unfoldable pub revised : Source → Text → Document → Document
  revised x content_hash r = record r {
    title = x.title;
    content = x.content;
    content_hash = some content_hash;
    metadata = x.metadata;
  }

  unfoldable pub new_document : Draw → Source → Text → Document
  new_document draw x content_hash = record {
    id = draw.document_id;
    title = x.title;
    source = x.source;
    content = x.content;
    content_hash = some content_hash;
    metadata = x.metadata;
    access_level = x.access_level;
  }

  -- The two ends of `upsert_document`.
  unfoldable pub put_document : Draw → Source → Text → Option Document → Job Text
  put_document draw x content_hash none =
      insert_document (new_document draw x content_hash) >> pure draw.document_id
  put_document draw x content_hash (some r) =
      update_document (document_of_id r.id) (revised x content_hash) >> pure r.id

  unfoldable pub upsert_document : Draw → Source → Text → Job Text
  upsert_document draw x content_hash = do
    existing ← get_document_by_source x.source
    put_document draw x content_hash existing

  unfoldable pub delete_chunks : (ChunkRow V → Bool) → Job (Unit {0})
  delete_chunks p =
      write λ s. Option.map (λ t. record s { chunks = t }) (d.chunks.delete p s.chunks)

  unfoldable pub delete_document_chunks : Text → Job (Unit {0})
  delete_document_chunks document_id = delete_chunks (of_document document_id)

  unfoldable pub delete_chunks_by_ids : List Text → Job (Unit {0})
  delete_chunks_by_ids [] = pure tt
  delete_chunks_by_ids (id ∷ ids) = delete_chunks (of_ids (id ∷ ids))

  unfoldable pub get_document_chunks : Text → Job (List (ChunkRow V))
  get_document_chunks document_id = read (λ s. d.chunks.select (of_document document_id) s.chunks)

  unfoldable pub chunk_row : (Text → Text) → Draw → Text → ℕ → EmbeddedChunk V → ChunkRow V
  chunk_row sha256 draw document_id i e = record {
    id = draw.row_id i;
    document_id = document_id;
    content = e.chunk.content;
    content_hash = some (sha256 e.chunk.content);
    embedding = e.embedding;
    chunk_index = e.chunk.index;
    token_count = e.chunk.token_count;
    metadata = e.chunk.metadata;
  }

  unfoldable pub chunk_rows :
      (Text → Text) → Draw → Text → ℕ → List (EmbeddedChunk V) → List (ChunkRow V)
  chunk_rows sha256 draw document_id i [] = []
  chunk_rows sha256 draw document_id i (e ∷ es) =
      chunk_row sha256 draw document_id i e ∷ chunk_rows sha256 draw document_id (suc i) es

  unfoldable pub insert_chunks : List (ChunkRow V) → Job (Unit {0})
  insert_chunks rows =
      write λ s. Option.map (λ t. record s { chunks = t }) (d.chunks.insert_all rows s.chunks)

  unfoldable pub save_chunks :
      (Text → Text) → Draw → Text → List (EmbeddedChunk V) → Job (List (ChunkRow V))
  save_chunks sha256 draw document_id [] = pure []
  save_chunks sha256 draw document_id (e ∷ es) =
      let rows = chunk_rows sha256 draw document_id 0 (e ∷ es) in insert_chunks rows >> pure rows

  unfoldable pub delete_documents : (Document → Bool) → Job (Unit {0})
  delete_documents p =
      write λ s. Option.map (λ t. record s { documents = t }) (d.documents.delete p s.documents)

  -- Deleting from the graph and from the search index never fails, and leaves the tables alone.
  unfoldable pub delete_document : Text → Job (Unit {0})
  delete_document document_id = do
    doc ← get_document document_id
    delete_document_chunks document_id
    delete_documents (document_of_id document_id)

-- What the diff reads of a row.
abbrev pub stored : {V : Type 0} → ChunkRow V → StoredChunk
stored r = record { id = r.id; content_hash = r.content_hash }
