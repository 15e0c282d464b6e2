-- ===== src/Ingest/Indexed.antt =====
-- What the last steps of an ingestion add to the table of chunks.
use agentic_rag_backend.Base.{
  ◌≡◌, ◌⊎◌, sym, ◌∙◌, ap, true, Option, none, some, List, [], ◌∷◌, map, inl, inr,
}
use agentic_rag_backend.Base.Text.{Text}
use agentic_rag_backend.Chunker.Config.{DocumentChunk}
use agentic_rag_backend.Database.{TableLaws}
use agentic_rag_backend.Http.{Reply, ok}
use agentic_rag_backend.Http.Inversion.{read-first, write-first, >>=-eq-ok}
use agentic_rag_backend.Ingest.Exact.{any_hash}
use agentic_rag_backend.Ingest.Documents.{
  Document, EmbeddedChunk, ChunkRow, Corpus, State, Draw, Source, get_document_by_source,
  upsert_document, put_document, update_document, insert_document, of_source,
}
use agentic_rag_backend.Ingest.Service.{
  Status, updated, IngestResult, Pipeline, content_of, bump, index_chunks, index_changed,
}
use agentic_rag_backend.Ingest.Rows.{
  embedded_content, Stored, any_hash-same, chunk_rows_old, chunk_rows_new, Has-save_chunks,
}

-- The embedder returns the chunks that it is given, with their contents.
unfoldable pub Complete : {V : Type 0} → Pipeline V → Type 0
Complete {V} p =
    (cs : List DocumentChunk) (es : List (EmbeddedChunk V))
    → p.embedder cs ≡ some es
    → map embedded_content es ≡ map content_of cs

abbrev text_of : Reply Text → Text
text_of (ok t) = t
text_of _ = []

module _ (V : Type 0) (d : Corpus V) (laws : TableLaws d.chunks) (p : Pipeline V)
    (complete : Complete p) where
  pub upsert_document-chunks :
      (draw : Draw) (x : Source) (hash : Text) (s s' : State V d) (id : Text)
      → upsert_document V d draw x hash s ≡ (s', ok id)
      → s'.chunks ≡ s.chunks
  unfolding upsert_document get_document_by_source put_document insert_document update_document
  upsert_document-chunks draw x hash s s' id e =
      let (existing, _, e₁) = read-first _ _ s e in put existing e₁
    where
      put :
          (existing : Option Document)
          → put_document V d draw x hash existing s ≡ (s', ok id)
          → s'.chunks ≡ s.chunks
      put none e₁ =
          let (t, _, e₂) = write-first _ _ _ s e₁ in
          sym (ap (λ (q : State V d × Reply Text). q.0.chunks) e₂)
      put (some r) e₁ =
          let (t, _, e₂) = write-first _ _ _ s e₁ in
          sym (ap (λ (q : State V d × Reply Text). q.0.chunks) e₂)

  -- The identifier of a document that was not there.
  pub upsert_document_new :
      (draw : Draw) (x : Source) (hash : Text) (s s' : State V d) (id : Text)
      → d.documents.first (of_source x.source) s.documents ≡ some none
      → upsert_document V d draw x hash s ≡ (s', ok id)
      → id ≡ draw.document_id
  unfolding upsert_document get_document_by_source put_document insert_document
  upsert_document_new draw x hash s s' id none_yet e =
      let (existing, found, e₁) = read-first _ _ s e in
      let same : existing ≡ none = cc in
      let (t, _, e₂) = write-first _ _ _ s (rw same at e₁) in
      sym (ap (λ (q : State V d × Reply Text). text_of q.1) e₂)

  abbrev document_of : Reply IngestResult → Option Text
  document_of (ok r) = r.document_id
  document_of _ = none

  -- What indexing adds, and its result.
  pub index_chunks-Stored :
      (draw : Draw) (x : Source) (id : Text) (status : Status) (cs : List DocumentChunk)
      (s s' : State V d) (r : IngestResult)
      → index_chunks V d p draw x id status cs s ≡ (s', ok r)
      → (r.document_id ≡ some id)
        × ((row : ChunkRow V) → d.chunks.Has row s.chunks → d.chunks.Has row s'.chunks)
        × ((row : ChunkRow V) (h : Text)
            → d.chunks.Has row s'.chunks
            → row.content_hash ≡ some h
            → d.chunks.Has row s.chunks ⊎ (any_hash p.sha256 content_of h cs ≡ true))
        × ((h : Text) → any_hash p.sha256 content_of h cs ≡ true → Stored V d id h s'.chunks)
  unfolding index_chunks bump Complete Stored
  index_chunks-Stored draw x id status cs s s' r e =
      let (es, ran, e₁) = read-first _ _ s e in
      let (rows, s₁, saved, e₂) = >>=-eq-ok _ _ s e₁ in
      let (_, s₂, bumped, e₃) = >>=-eq-ok _ _ s₁ e₂ in
      let same : s₁.chunks ≡ s'.chunks =
        ap (λ (q : State V d × Reply (Unit {0})). q.0.chunks) bumped
        ∙ ap (λ (q : State V d × Reply IngestResult). q.0.chunks) e₃ in
      let has = Has-save_chunks V d laws p.sha256 draw id es s s₁ rows saved in
      let hashes = λ (h : Text).
        any_hash-same p.sha256 embedded_content content_of h es cs (complete cs es ran) in
      (
        sym (ap (λ (q : State V d × Reply IngestResult). document_of q.1) e₃),
        (λ row there. rw same at ((has row).1 (inl there))),
        (λ row h there hash. elim ((has row).0 (rw (← same) at there)) [
          | inl old ↦ inl old
          | inr new ↦
              inr (sym (hashes h) ∙ chunk_rows_old V d laws p.sha256 draw id 0 es row h new hash)
        ]),
        λ h there.
            let (row, new, own, hash) =
              chunk_rows_new V d laws p.sha256 draw id 0 es h (hashes h ∙ there) in
            (row, rw same at ((has row).1 (inr new)), own, hash),
      )

  pub index_changed-Stored :
      (draw : Draw) (x : Source) (id : Text) (cs : List DocumentChunk) (s s' : State V d)
      (r : IngestResult)
      → index_changed V d p draw x id cs s ≡ (s', ok r)
      → (r.document_id ≡ some id)
        × ((row : ChunkRow V) → d.chunks.Has row s.chunks → d.chunks.Has row s'.chunks)
        × ((row : ChunkRow V) (h : Text)
            → d.chunks.Has row s'.chunks
            → row.content_hash ≡ some h
            → d.chunks.Has row s.chunks ⊎ (any_hash p.sha256 content_of h cs ≡ true))
        × ((h : Text) → any_hash p.sha256 content_of h cs ≡ true → Stored V d id h s'.chunks)
  unfolding index_changed
  index_changed-Stored draw x id [] s s' r e =
      let same : s.chunks ≡ s'.chunks = ap (λ (q : State V d × Reply IngestResult). q.0.chunks) e in
      (
        sym (ap (λ (q : State V d × Reply IngestResult). document_of q.1) e),
        (λ row there. rw same at there),
        (λ row h there hash. inl (rw (← same) at there)),
        λ h no_chunk. absurd (cc),
      )
  index_changed-Stored draw x id (c ∷ cs) s s' r e =
      index_chunks-Stored draw x id updated (c ∷ cs) s s' r e
