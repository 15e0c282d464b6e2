-- ===== src/Tests/Ingestion.antt =====
-- The ingestion of a document over tables that are lists, and its theorems at it.
use agentic_rag_backend.Base.{
  ℕ, suc, ◌≡◌, ◌≢◌, ◌⊎◌, ◌↔◌, refl, sym, ◌∙◌, ap, true, not, Option, none, some, List, [], ◌∷◌,
  ◌++◌, map, length, if◌then◌else◌, inl, inr,
}
use agentic_rag_backend.Base.Text.{Text, codes, text_eq, split_char}
use agentic_rag_backend.Chunker.Config.{DocumentChunk, new_chunk}
use agentic_rag_backend.Base.Dict
use agentic_rag_backend.Database.{In}
use agentic_rag_backend.Http
use agentic_rag_backend.Ingest
use agentic_rag_backend.Ingest.Documents
use agentic_rag_backend.Ingest.Service
use agentic_rag_backend.Tests.Tables
use agentic_rag_backend.Ingest.Exact.{any_hash}
use agentic_rag_backend.Ingest.Documents.{
  Document, EmbeddedChunk, ChunkRow, Corpus, State, Draw, Source, of_source,
}
use agentic_rag_backend.Ingest.Service.{
  skipped, failure, inserted, updated, failed_result, result, Pipeline, content_of, ingest_document,
}
use agentic_rag_backend.Ingest.Bulk.{ObjectStore, IngestStats, total, no_stats, ingest_from_s3}
use agentic_rag_backend.Ingest.Counts.{ingest_from_s3-total}
use agentic_rag_backend.Ingest.Repeat.{IsUnique, ingest_document_repeat}
use agentic_rag_backend.Ingest.Rows.{Stored, embedded_content}
use agentic_rag_backend.Ingest.Indexed.{Complete}
use agentic_rag_backend.Ingest.Whole.{HasIds, ingest_document-Stored}
use agentic_rag_backend.Tests.Tables.{apart, is_row, rows_of, rows_of-laws}

abbrev corpus : Corpus ℕ
corpus = record {
  documents = rows_of Document;
  chunks = rows_of (ChunkRow ℕ);
  Cache = ℕ;
  bump_version = suc;
}

abbrev chunk_of : Text → DocumentChunk
chunk_of t = new_chunk t 0 0 (length t) [] none

abbrev embed : DocumentChunk → EmbeddedChunk ℕ
embed c = record { chunk = c; embedding = some (length c.content) }

-- The words are the chunks, and a hash is the text itself.
abbrev pipeline : Pipeline ℕ
pipeline = record {
  sha256 = λ t. t;
  chunker = λ x. some (map chunk_of (split_char b' ' x.content));
  embedder = λ cs. some (map embed cs);
  exception = codes "down";
}

embed-map : (cs : List DocumentChunk) → map embedded_content (map embed cs) ≡ map content_of cs
embed-map [] = refl
embed-map (c ∷ cs) = ap (◌∷◌ (content_of c)) (embed-map cs)

pipeline-Complete : Complete pipeline
unfolding Complete
pipeline-Complete cs es e =
    let same : map embed cs ≡ es = cc in ap (map embedded_content) (sym same) ∙ embed-map cs

abbrev draw : Draw
draw = record { document_id = codes "d2"; row_id = λ i. codes "new" ++ i ∷ [] }

abbrev version : Text → Source
version content = record {
  content = content;
  source = codes "s";
  title = codes "t";
  metadata = [];
  access_level = codes "public";
}

abbrev row : Text → Text → ChunkRow ℕ
row id content = record {
  id = id;
  document_id = codes "d1";
  content = content;
  content_hash = some content;
  embedding = none;
  chunk_index = 0;
  token_count = 0;
  metadata = [];
}

-- A document with the chunks a and b.
abbrev before : State ℕ corpus
before = record {
  documents =
      record {
        id = codes "d1";
        title = codes "t";
        source = codes "s";
        content = codes "a b";
        content_hash = some (codes "a b");
        metadata = [];
        access_level = codes "public";
      }
      ∷ [];
  chunks = row (codes "1") (codes "a") ∷ row (codes "2") (codes "b") ∷ [];
  cache = 0;
}

-- Its new version has b and c.
abbrev changed : Source
changed = version (codes "b c")

abbrev after : State ℕ corpus
after = (ingest_document ℕ corpus pipeline draw changed before).0

row_ids : {r q x y : ChunkRow ℕ} → r ≡ x → q ≡ y → r.id ≡ q.id → x.id ≡ y.id
row_ids a b same = ap (λ (z : ChunkRow ℕ). z.id) (sym a) ∙ (same ∙ ap (λ (z : ChunkRow ℕ). z.id) b)

before_document : (r : ChunkRow ℕ) → In r before.chunks → r.document_id ≢ codes "d2"
before_document r (inl a) e =
    apart (codes "d1") (codes "d2") refl (ap (λ (z : ChunkRow ℕ). z.document_id) (sym a) ∙ e)
before_document r (inr (inl a)) e =
    apart (codes "d1") (codes "d2") refl (ap (λ (z : ChunkRow ℕ). z.document_id) (sym a) ∙ e)
before_document r (inr (inr other)) e = other

before-HasIds : HasIds corpus before.chunks
unfolding HasIds
before-HasIds r q (inl a) (inl b) same = a ∙ sym b
before-HasIds r q (inr (inl a)) (inr (inl b)) same = a ∙ sym b
before-HasIds r q (inl a) (inr (inl b)) same =
    absurd (apart (codes "1") (codes "2") refl (row_ids a b same))
before-HasIds r q (inr (inl a)) (inl b) same =
    absurd (apart (codes "2") (codes "1") refl (row_ids a b same))
before-HasIds r q (inr (inr other)) _ same = absurd other
before-HasIds r q (inl a) (inr (inr other)) same = absurd other
before-HasIds r q (inr (inl a)) (inr (inr other)) same = absurd other

ingest_document-Stored_example :
    (id : Text) × ((ingest_document ℕ corpus pipeline draw changed before).1.document_id ≡ some id)
    × (Stored ℕ corpus id (codes "c") after.chunks ↔ (
        any_hash pipeline.sha256 content_of (codes "c") (map chunk_of (codes "b" ∷ codes "c" ∷ []))
        ≡ true))
unfolding ingest_document Service.caught Service.ingest_body Service.ingest_changed
    Service.same_hash Service.update_existing Service.bump Service.index_changed
    Service.index_chunks Service.insert_new Http.◌>>=◌ Http.continue_with Http.read Http.write
    Documents.get_document_by_source Documents.get_document_chunks Documents.delete_chunks_by_ids
    Documents.chunk_row Documents.chunk_rows Documents.delete_chunks Documents.insert_chunks
    Documents.insert_document Documents.new_document Documents.put_document Documents.revised
    Documents.save_chunks Documents.update_document Documents.upsert_document Tables.first_row
    Ingest.stale_ids Ingest.is_stale Ingest.has_hash Ingest.has Dict.get Dict.put
    Ingest.chunks_to_embed Ingest.hashed Ingest.new_chunk_hashes Ingest.old_hashes new_chunk
ingest_document-Stored_example =
    ingest_document-Stored ℕ corpus (rows_of-laws (ChunkRow ℕ)) pipeline pipeline-Complete draw
      changed (map chunk_of (codes "b" ∷ codes "c" ∷ [])) before after
      (ingest_document ℕ corpus pipeline draw changed before).1 (codes "c") before-HasIds
      before_document refl refl (inr refl)

updated_kept : updated ≢ failure
updated_kept e = cc

ingest_document_repeat_example :
    ((ingest_document ℕ corpus pipeline draw changed after).0 ≡ after)
    × (((corpus.documents.first (of_source changed.source) after.documents ≡ none)
          × ((ingest_document ℕ corpus pipeline draw changed after).1
              ≡ failed_result changed.source pipeline.exception))
        ⊎ ((doc : Document) × (corpus.documents.first (of_source changed.source) after.documents
              ≡ some (some doc))
            × ((ingest_document ℕ corpus pipeline draw changed after).1
                ≡ result changed.source skipped doc.id 0)))
unfolding ingest_document Service.caught Service.ingest_body Service.ingest_changed
    Service.same_hash Service.update_existing Service.bump Service.index_changed
    Service.index_chunks Service.insert_new Http.◌>>=◌ Http.continue_with Http.read Http.write
    Documents.get_document_by_source Documents.get_document_chunks Documents.delete_chunks_by_ids
    Documents.chunk_row Documents.chunk_rows Documents.delete_chunks Documents.insert_chunks
    Documents.insert_document Documents.new_document Documents.put_document Documents.revised
    Documents.save_chunks Documents.update_document Documents.upsert_document Tables.first_row
    Ingest.stale_ids Ingest.is_stale Ingest.has_hash Ingest.has Dict.get Dict.put
    Ingest.chunks_to_embed Ingest.hashed Ingest.new_chunk_hashes Ingest.old_hashes IsUnique
    new_chunk
ingest_document_repeat_example =
    ingest_document_repeat ℕ corpus pipeline (rows_of-laws Document) draw changed before after
      (ingest_document ℕ corpus pipeline draw changed before).1
      (λ r q r_there q_there _ _. is_row r _ r_there ∙ sym (is_row q _ q_there)) refl updated_kept
      draw

-- A bucket with three objects: one that cannot be downloaded, one that is empty and one with text.
abbrev bucket : ObjectStore
bucket = record {
  reachable = true;
  private_bucket = codes "p";
  keys = λ bucket_type prefix. codes "x" ∷ codes "y" ∷ codes "z" ∷ [];
  stem = λ key. key;
  download = λ key bucket_type. not (text_eq key (codes "x"));
  parse = λ key bucket_type. some ((if text_eq key (codes "y") then [] else codes "b c"), []);
}

abbrev counts_of : Option IngestStats → IngestStats
counts_of none = no_stats
counts_of (some t) = t

abbrev bulk : State ℕ corpus × Option IngestStats
bulk = ingest_from_s3 ℕ corpus pipeline bucket (λ key. draw) (codes "public") [] before

ingest_from_s3-total_example :
    (total (counts_of bulk.1) ≡ length (counts_of bulk.1).results)
    × (length (counts_of bulk.1).results ≡ (if true then 3 else 0))
unfolding ingest_from_s3 agentic_rag_backend.Ingest.Bulk.ingest_keys
    agentic_rag_backend.Ingest.Bulk.ingest_object
ingest_from_s3-total_example =
    ingest_from_s3-total ℕ corpus pipeline bucket (λ key. draw) (codes "public") [] before
      (counts_of bulk.1) refl
