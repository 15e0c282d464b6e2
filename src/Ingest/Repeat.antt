-- ===== src/Ingest/Repeat.antt =====
-- A document that has been ingested is skipped when it comes again.
use agentic_rag_backend.Base.{
  ◌≡◌, ◌≢◌, ◌⊎◌, refl, sym, ap, true, Option, none, some, List, [], ◌∷◌, Option-cases, Bool-cases,
  inl, inr,
}
use agentic_rag_backend.Base.Text.{Text, text_eq_iff, text_eq_refl}
use agentic_rag_backend.Chunker.Config.{DocumentChunk}
use agentic_rag_backend.Database.{TableLaws}
use agentic_rag_backend.Database.Only.{Only, insert-Only, first-Only, update-Only}
use agentic_rag_backend.Http.{Reply, ok, refused, failed, ◌>>=◌, read, continue_with}
use agentic_rag_backend.Http.Inversion.{read-first, write-first, >>=-eq-ok}
use agentic_rag_backend.Http.Rules.{Leads, Implies, >>=-Leads, pure-Leads, read-Leads, write-Leads}
use agentic_rag_backend.Ingest.Documents.{
  Document, EmbeddedChunk, Corpus, State, Draw, Source, Job, get_document_by_source,
  get_document_chunks, upsert_document, put_document, update_document, insert_document,
  delete_chunks, delete_chunks_by_ids, save_chunks, insert_chunks, of_source, document_of_id,
  revised, new_document,
}
use agentic_rag_backend.Ingest.Service.{
  Status, inserted, skipped, failure, IngestResult, Pipeline, failed_result, result, same_hash,
  bump, index_chunks, index_changed, update_existing, insert_new, ingest_changed, ingest_body,
  caught, ingest_document,
}

-- The one document of a source has the hash.
unfoldable pub HasHash : {V : Type 0} → (d : Corpus V) → Text → Text → d.documents.Store → Type 0
HasHash d source h t =
    (doc : Document) × Only d.documents (of_source source) doc t × (doc.content_hash ≡ some h)

same_hash_sound : (o : Option Text) (h : Text) → same_hash o h ≡ true → o ≡ some h
unfolding same_hash
same_hash_sound none h e = absurd (cc)
same_hash_sound (some k) h e = ap some ((text_eq_iff k h).0 e)

same_hash_complete : (o : Option Text) (h : Text) → o ≡ some h → same_hash o h ≡ true
unfolding same_hash
same_hash_complete o h e = rw e (text_eq_refl h)

-- A source names at most one document.
unfoldable pub IsUnique : {V : Type 0} → (d : Corpus V) → Text → d.documents.Store → Type 0
IsUnique d source t =
    (r q : Document)
    → d.documents.Has r t
    → d.documents.Has q t
    → of_source source r ≡ true
    → of_source source q ≡ true
    → r ≡ q

module _ (V : Type 0) (d : Corpus V) (p : Pipeline V) where
  -- A predicate on the documents, through what leaves the documents alone.
  module _ (P : d.documents.Store → Type 0) where
    abbrev On : State V d → Type 0
    On s = P s.documents

    keep : Implies On On
    keep s h = h

    delete_chunks_by_ids-Leads : (ids : List Text) → Leads On (delete_chunks_by_ids V d ids) On
    unfolding delete_chunks_by_ids delete_chunks
    delete_chunks_by_ids-Leads [] = pure-Leads keep _
    delete_chunks_by_ids-Leads (id ∷ ids) = write-Leads keep _ _ λ s t h e. h

    save_chunks-Leads :
        (draw : Draw) (document_id : Text) (es : List (EmbeddedChunk V))
        → Leads On (save_chunks V d p.sha256 draw document_id es) On
    unfolding save_chunks insert_chunks
    save_chunks-Leads draw document_id [] = pure-Leads keep _
    save_chunks-Leads draw document_id (e ∷ es) =
        >>=-Leads keep (write-Leads keep _ _ λ s t h e. h) λ _. pure-Leads keep _

    index_chunks-Leads :
        (draw : Draw) (x : Source) (document_id : Text) (status : Status) (cs : List DocumentChunk)
        → Leads On (index_chunks V d p draw x document_id status cs) On
    unfolding index_chunks bump
    index_chunks-Leads draw x document_id status cs = >>=-Leads keep (read-Leads keep _) λ embedded.
        >>=-Leads keep (save_chunks-Leads draw document_id embedded)
          λ rows. >>=-Leads keep (record { after = λ s h. h }) λ _. pure-Leads keep _

    index_changed-Leads :
        (draw : Draw) (x : Source) (document_id : Text) (cs : List DocumentChunk)
        → Leads On (index_changed V d p draw x document_id cs) On
    unfolding index_changed
    index_changed-Leads draw x document_id [] = pure-Leads keep _
    index_changed-Leads draw x document_id (c ∷ cs) =
        index_chunks-Leads draw x document_id _ (c ∷ cs)

  pub caught-eq-ok :
      (x : Source) (q : State V d × Reply IngestResult) (s' : State V d) (r : IngestResult)
      → caught V d p x q ≡ (s', r)
      → r.status ≢ failure
      → q ≡ (s', ok r)
  unfolding caught
  caught-eq-ok x (s, ok a) s' r e good = cc
  caught-eq-ok x (s, refused status detail) s' r e good =
      absurd (good (sym (ap (λ (q : State V d × IngestResult). q.1.status) e)))
  caught-eq-ok x (s, failed) s' r e good =
      absurd (good (sym (ap (λ (q : State V d × IngestResult). q.1.status) e)))

  module _ (laws : TableLaws d.documents) where
    abbrev Known : Source → d.documents.Store → Type 0
    Known x = HasHash d x.source (p.sha256 x.content)

    -- The documents after a part of the job that ends well.
    after_ok :
        {A : Type 0} (P : d.documents.Store → Type 0) (m : Job V d A) (s s' : State V d) (a : A)
        → Leads (On P) m (On P)
        → P s.documents
        → m s ≡ (s', ok a)
        → P s'.documents
    after_ok {A} P m s s' a leads h e =
        rw (ap (λ (q : State V d × Reply A). q.0.documents) e) at (leads.after s h)

    upsert_document-HasHash :
        (draw : Draw) (x : Source) (s s' : State V d) (id : Text)
        → IsUnique d x.source s.documents
        → upsert_document V d draw x (p.sha256 x.content) s ≡ (s', ok id)
        → Known x s'.documents
    unfolding upsert_document get_document_by_source IsUnique HasHash put_document insert_document
        update_document revised new_document
    upsert_document-HasHash draw x s s' id unique e =
        let (existing, found, e₁) = read-first _ _ s e in put existing found e₁
      where
        put :
            (existing : Option Document)
            → d.documents.first (of_source x.source) s.documents ≡ some existing
            → put_document V d draw x (p.sha256 x.content) existing s ≡ (s', ok id)
            → Known x s'.documents
        put none found e₁ =
            let (t, inserted_row, e₂) = write-first _ _ _ s e₁ in
            let doc = new_document V d draw x (p.sha256 x.content) in
            let only =
              insert-Only d.documents laws (of_source x.source) doc s.documents t
                (laws.first_none (of_source x.source) s.documents found) (text_eq_refl x.source)
                inserted_row in
            (doc, rw (ap (λ (q : State V d × Reply Text). q.0.documents) e₂) at only, refl)
        put (some r) found e₁ =
            let (t, update, e₂) = write-first _ _ _ s e₁ in
            let (there, by) = laws.first_some (of_source x.source) s.documents found in
            let only : Only d.documents (of_source x.source) r s.documents = record {
              there = there;
              passes = by;
              unique = λ q q_there q_by. unique q r q_there there q_by by;
            } in
            let f = revised V d x (p.sha256 x.content) in
            let only' =
              update-Only d.documents laws (of_source x.source) (document_of_id r.id) f r
                s.documents t (λ q. refl) only update in
            let only'' : Only d.documents (of_source x.source) (f r) t =
              rw (text_eq_refl r.id) at only' in
            (f r, rw (ap (λ (q : State V d × Reply Text). q.0.documents) e₂) at only'', refl)

    ingest_changed-HasHash :
        (draw : Draw) (x : Source) (existing : Option Document) (s s' : State V d)
        (r : IngestResult)
        → IsUnique d x.source s.documents
        → d.documents.first (of_source x.source) s.documents ≡ some existing
        → ingest_changed V d p draw x existing s ≡ (s', ok r)
        → Known x s'.documents
    unfolding ingest_changed insert_new update_existing get_document_chunks IsUnique HasHash
    ingest_changed-HasHash draw x none s s' r unique found e =
        let (cs, _, e₁) = read-first _ _ s e in
        let (id, s₁, up, e₂) = >>=-eq-ok _ _ s e₁ in
        let known = upsert_document-HasHash draw x s s₁ id unique up in
        after_ok (Known x) _ s₁ s' r (index_chunks-Leads (Known x) draw x id inserted cs) known e₂
    ingest_changed-HasHash draw x (some doc) s s' r unique found e =
        elim (Bool-cases (same_hash doc.content_hash (p.sha256 x.content))) [
          | inl same ↦
              let (there, by) = laws.first_some (of_source x.source) s.documents found in
              let only : Only d.documents (of_source x.source) doc s.documents = record {
                there = there;
                passes = by;
                unique = λ q q_there q_by. unique q doc q_there there q_by by;
              } in
              let unchanged : s.documents ≡ s'.documents =
                ap (λ (q : State V d × Reply IngestResult). q.0.documents) (rw same at e) in
              (doc, rw unchanged at only, same_hash_sound _ _ same)
          | inr changed ↦
              let (cs, _, e₁) = read-first _ _ s (rw changed at e) in
              let (rows, _, e₂) = read-first _ _ s e₁ in
              let (_, s₁, del, e₃) = >>=-eq-ok _ _ s e₂ in
              let unique₁ =
                after_ok (IsUnique d x.source) _ s s₁ tt
                  (delete_chunks_by_ids-Leads (IsUnique d x.source) _) unique del in
              let (id, s₂, up, e₄) = >>=-eq-ok _ _ s₁ e₃ in
              let known = upsert_document-HasHash draw x s₁ s₂ id unique₁ up in
              after_ok (Known x) _ s₂ s' r (index_changed-Leads (Known x) draw x doc.id _) known e₄
        ]

    -- Nothing changes, and the answer is that of an unchanged document; where the selection of the
    -- document fails, it is that failure.
    abbrev Unchanged : Source → State V d → State V d × IngestResult → Type 0
    Unchanged x s (s', r) =
        (s' ≡ s)
        × (((d.documents.first (of_source x.source) s.documents ≡ none)
              × (r ≡ failed_result x.source p.exception))
            ⊎ ((doc : Document) × (d.documents.first (of_source x.source) s.documents
                  ≡ some (some doc))
                × (r ≡ result x.source skipped doc.id 0)))

    ingest_document-Known :
        (draw : Draw) (x : Source) (s : State V d)
        → Known x s.documents
        → Unchanged x s (ingest_document V d p draw x s)
    unfolding ingest_document ingest_body get_document_by_source ingest_changed HasHash ◌>>=◌
        continue_with read caught
    ingest_document-Known draw x s (doc, only, hash) =
        elim (Option-cases (d.documents.first (of_source x.source) s.documents)) [
          | inl e ↦ rw (e, read) (refl, inl (refl, refl))
          | inr (found, e) ↦
              let is =
                first-Only d.documents laws (of_source x.source) doc s.documents found only e in
              let same = same_hash_complete doc.content_hash (p.sha256 x.content) hash in
              rw (e, read, is, same) (refl, inr (doc, refl, refl))
        ]

    -- After an ingestion that did not fail, the same document again changes nothing: it is skipped,
    -- with the identifier of its row and no chunk, and it fails only where the selection of its row
    -- does. Before, the source names at most one document.
    pub ingest_document_repeat :
        (draw : Draw) (x : Source) (s s' : State V d) (r : IngestResult)
        → IsUnique d x.source s.documents
        → ingest_document V d p draw x s ≡ (s', r)
        → r.status ≢ failure
        → (again : Draw)
        → (((ingest_document V d p again x s').0 ≡ s')
            × (((d.documents.first (of_source x.source) s'.documents ≡ none)
                  × ((ingest_document V d p again x s').1 ≡ failed_result x.source p.exception))
                ⊎ ((doc : Document) × (d.documents.first (of_source x.source) s'.documents
                      ≡ some (some doc))
                    × ((ingest_document V d p again x s').1 ≡ result x.source skipped doc.id 0))))
    unfolding ingest_document ingest_body get_document_by_source
    ingest_document_repeat draw x s s' r unique e good again =
        let ran = caught-eq-ok x (ingest_body V d p draw x s) s' r e good in
        let (existing, found, rest) = read-first _ _ s ran in
        ingest_document-Known again x s'
          (ingest_changed-HasHash draw x existing s s' r unique found rest)
