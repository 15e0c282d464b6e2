-- ===== src/Ingest/Whole.antt =====
-- What an ingestion leaves in the table of chunks.
use agentic_rag_backend.Base.{
  ◌≡◌, ◌≢◌, ◌⊎◌, ◌↔◌, sym, ◌∙◌, ap, true, not, Option, none, some, List, map, any, arith,
  Bool-cases, inl, inr,
}
use agentic_rag_backend.Base.Text.{Text, text_eq, text_eq_iff}
use agentic_rag_backend.Chunker.Config.{DocumentChunk}
use agentic_rag_backend.Database.{TableLaws}
use agentic_rag_backend.Http.{Reply, ok}
use agentic_rag_backend.Http.Inversion.{read-first, >>=-eq-ok}
use agentic_rag_backend.Ingest.{old_hashes, is_stale, stale_ids, has_hash}
use agentic_rag_backend.Ingest.Exact.{any_hash, chunks_to_embed-any_hash, has-new_chunk_hashes}
use agentic_rag_backend.Ingest.Documents.{
  Document, ChunkRow, Corpus, State, Draw, Source, get_document_by_source, get_document_chunks,
  of_source, of_document, of_ids, stored,
}
use agentic_rag_backend.Ingest.Service.{
  Status, updated, inserted, skipped, failure, IngestResult, Pipeline, same_hash, content_of,
  update_existing, insert_new, ingest_changed, ingest_body, ingest_document,
}
use agentic_rag_backend.Ingest.Repeat.{caught-eq-ok}
use agentic_rag_backend.Ingest.Indexed.{
  Complete, upsert_document-chunks, upsert_document_new, index_chunks-Stored, index_changed-Stored,
}
use agentic_rag_backend.Ingest.Rows.{
  Stored, Has-delete_chunks_by_ids, stale_ids_old, stale_ids_new, old_hashes_row,
}

-- Each row of a chunk has an identifier of its own.
unfoldable pub HasIds : {V : Type 0} → (d : Corpus V) → d.chunks.Store → Type 0
HasIds {V} d t = (r q : ChunkRow V) → d.chunks.Has r t → d.chunks.Has q t → r.id ≡ q.id → r ≡ q

abbrev status_of : Reply IngestResult → Status
status_of (ok r) = r.status
status_of _ = failure

-- A document that was stored was neither skipped nor given up.
stored_status : (t : Status) → (t ≡ inserted) ⊎ (t ≡ updated) → (t ≢ failure) × (t ≢ skipped)
stored_status t (inl e) = ((λ f. cc), λ f. cc)
stored_status t (inr e) = ((λ f. cc), λ f. cc)

module _ (V : Type 0) (d : Corpus V) (laws : TableLaws d.chunks) (p : Pipeline V)
    (complete : Complete p) where
  -- A row that has the hash of a chunk is not stale, and no other row with a hash is kept.
  stale_of_hash :
      (cs : List DocumentChunk) (row : ChunkRow V) (h : Text)
      → row.content_hash ≡ some h
      → is_stale p.sha256 content_of cs (stored row) ≡ not (any_hash p.sha256 content_of h cs)
  unfolding is_stale has_hash
  stale_of_hash cs row h hash = rw hash (ap not (has-new_chunk_hashes p.sha256 content_of h cs))

  update_existing-Stored :
      (draw : Draw) (x : Source) (doc : Document) (cs : List DocumentChunk) (s s' : State V d)
      (r : IngestResult) (h : Text)
      → HasIds d s.chunks
      → update_existing V d p draw x doc cs s ≡ (s', ok r)
      → (r.document_id ≡ some doc.id)
        × (Stored V d doc.id h s'.chunks ↔ (any_hash p.sha256 content_of h cs ≡ true))
  unfolding update_existing get_document_chunks Stored HasIds
  update_existing-Stored draw x doc cs s s' r h ids e =
      let (old, selected, e₁) = read-first _ _ s e in
      let (_, s₁, deleted, e₂) = >>=-eq-ok _ _ s e₁ in
      let (id, s₂, up, e₃) = >>=-eq-ok _ _ s₁ e₂ in
      let listed = laws.In-select (of_document doc.id) s.chunks selected in
      let left =
        Has-delete_chunks_by_ids V d laws p.sha256
          (stale_ids p.sha256 content_of cs (map stored old)) s s₁ deleted in
      let same =
        upsert_document-chunks V d laws p complete draw x (p.sha256 x.content) s₁ s₂ id up in
      let (own, kept, known, new) =
        index_changed-Stored V d laws p complete draw x doc.id _ s₂ s' r e₃ in
      let diff = chunks_to_embed-any_hash p.sha256 content_of cs (map stored old) h in
      (
        own,
        (
          (λ (row, there, its, hash). elim (known row h there hash) [
            | inr fresh ↦ ground (arith, diff, fresh)
            | inl was ↦
                let (there₀, unlisted) = (left row).0 (rw same at was) in
                let in_old = (listed row).1 (there₀, (text_eq_iff row.document_id doc.id).1 its) in
                elim (Bool-cases (any_hash p.sha256 content_of h cs)) [
                  | inl yes_there ↦ yes_there
                  | inr gone ↦
                      let stale = stale_of_hash cs row h hash ∙ ap not gone in
                      let hit =
                        stale_ids_new V d laws p.sha256 content_of cs old row in_old stale in
                      absurd (ground (arith, hit, unlisted))
                ]
          ]),
          λ there. elim (Bool-cases (any (text_eq h) (old_hashes (map stored old)))) [
            | inr missing ↦ new h (ground (arith, diff, missing, there))
            | inl stored_hash ↦
                let (q, in_old, hash) = old_hashes_row V d laws p.sha256 old h stored_hash in
                let (there₀, its) = (listed q).0 in_old in
                let fresh = stale_of_hash cs q h hash ∙ ap not there in
                elim (Bool-cases (of_ids (stale_ids p.sha256 content_of cs (map stored old)) q)) [
                  | inr unlisted ↦ (
                    q,
                    kept q (rw (← same) at ((left q).1 (there₀, unlisted))),
                    (text_eq_iff q.document_id doc.id).0 its,
                    hash,
                  )
                  | inl hit ↦
                      let (q', in_old', stale, same_id) =
                        stale_ids_old V d laws p.sha256 content_of cs old q hit in
                      let is = ids q q' there₀ ((listed q').0 in_old').0 same_id in
                      absurd (
                        ground (
                          arith,
                          stale,
                          fresh,
                          ap (λ (r : ChunkRow V). is_stale p.sha256 content_of cs (stored r)) is,
                        ))
                ]
          ],
        ),
      )

  insert_new-Stored :
      (draw : Draw) (x : Source) (cs : List DocumentChunk) (s s' : State V d) (r : IngestResult)
      (h : Text)
      → ((row : ChunkRow V) → d.chunks.Has row s.chunks → row.document_id ≢ draw.document_id)
      → d.documents.first (of_source x.source) s.documents ≡ some none
      → insert_new V d p draw x cs s ≡ (s', ok r)
      → (r.document_id ≡ some draw.document_id)
        × (Stored V d draw.document_id h s'.chunks ↔ (any_hash p.sha256 content_of h cs ≡ true))
  unfolding insert_new Stored
  insert_new-Stored draw x cs s s' r h new_id none_yet e =
      let (id, s₁, up, e₁) = >>=-eq-ok _ _ s e in
      let is_id =
        upsert_document_new V d laws p complete draw x (p.sha256 x.content) s s₁ id none_yet up in
      let same =
        upsert_document-chunks V d laws p complete draw x (p.sha256 x.content) s s₁ id up in
      let (own, kept, known, new) =
        index_chunks-Stored V d laws p complete draw x id inserted cs s₁ s' r e₁ in
      (
        own ∙ ap some is_id,
        (
          (λ (row, there, its, hash). elim (known row h there hash) [
            | inr fresh ↦ fresh
            | inl was ↦ absurd (new_id row (rw same at was) its)
          ]),
          λ there. let (row, now, its, hash) = new h there in (row, now, its ∙ is_id, hash),
        ),
      )

  -- After an ingestion that inserts or updates a document, the stored chunks of the document have
  -- exactly the hashes of the chunks that the chunker made of it. The embedder returns the chunks
  -- that it is given; no two rows of chunks have one identifier; and no row has the identifier that is
  -- drawn for a new document.
  pub ingest_document-Stored :
      (draw : Draw) (x : Source) (cs : List DocumentChunk) (s s' : State V d) (r : IngestResult)
      (h : Text)
      → HasIds d s.chunks
      → ((row : ChunkRow V) → d.chunks.Has row s.chunks → row.document_id ≢ draw.document_id)
      → p.chunker x ≡ some cs
      → ingest_document V d p draw x s ≡ (s', r)
      → (r.status ≡ inserted) ⊎ (r.status ≡ updated)
      → (id : Text) × (r.document_id ≡ some id)
        × (Stored V d id h s'.chunks ↔ (any_hash p.sha256 content_of h cs ≡ true))
  unfolding ingest_document ingest_body get_document_by_source ingest_changed
  ingest_document-Stored draw x cs s s' r h ids new_id made e status =
      let ran =
        caught-eq-ok V d p x (ingest_body V d p draw x s) s' r e
          (stored_status r.status status).0 in
      let (existing, found, rest) = read-first _ _ s ran in ended existing found rest
    where
      ended :
          (existing : Option Document)
          → d.documents.first (of_source x.source) s.documents ≡ some existing
          → ingest_changed V d p draw x existing s ≡ (s', ok r)
          → (id : Text) × (r.document_id ≡ some id)
            × (Stored V d id h s'.chunks ↔ (any_hash p.sha256 content_of h cs ≡ true))
      ended none found rest =
          let (cs', made', e₁) = read-first _ _ s rest in
          let same : cs' ≡ cs = cc in
          let (own, exact) = insert_new-Stored draw x cs s s' r h new_id found (rw same at e₁) in
          (draw.document_id, own, exact)
      ended (some doc) found rest =
          elim (Bool-cases (same_hash doc.content_hash (p.sha256 x.content))) [
            | inl unchanged ↦ absurd (
                (stored_status r.status status).1 (
                  sym (
                    ap (λ (q : State V d × Reply IngestResult). status_of q.1)
                      (rw unchanged at rest))))
            | inr changed ↦
                let (cs', made', e₁) = read-first _ _ s (rw changed at rest) in
                let same : cs' ≡ cs = cc in
                let (own, exact) =
                  update_existing-Stored draw x doc cs s s' r h ids (rw same at e₁) in
                (doc.id, own, exact)
          ]
