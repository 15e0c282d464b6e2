-- ===== src/Ingest/Rows.antt =====
-- The rows of one document's chunks, through deleting and saving.
use agentic_rag_backend.Base.{
  ℕ, suc, ◌≡◌, ◌⊎◌, ◌↔◌, refl, sym, ◌∙◌, ap, Bool, true, false, ◌||◌, some, List, [], ◌∷◌, map, any,
  arith, Bool-cases, Option-cases, inl, inr,
}
use agentic_rag_backend.Base.Text.{Text, is_empty, text_eq, text_eq_iff}
use agentic_rag_backend.Database.{TableLaws, In}
use agentic_rag_backend.Http.{Reply, ok}
use agentic_rag_backend.Http.Inversion.{write-first, write-only}
use agentic_rag_backend.Ingest.{old_hashes, is_stale, stale_ids}
use agentic_rag_backend.Ingest.Exact.{any_hash}
use agentic_rag_backend.Ingest.Documents.{
  EmbeddedChunk, ChunkRow, Corpus, State, Draw, delete_chunks, delete_chunks_by_ids, save_chunks,
  insert_chunks, chunk_row, chunk_rows, of_ids, stored,
}

abbrev pub embedded_content : {V : Type 0} → EmbeddedChunk V → Text
embedded_content e = e.chunk.content

-- A row of the document has the hash.
unfoldable pub Stored : (V : Type 0) (d : Corpus V) → Text → Text → d.chunks.Store → Type 0
Stored V d id h t =
    (row : ChunkRow V) × d.chunks.Has row t × (row.document_id ≡ id) × (row.content_hash ≡ some h)

any_of_map :
    {A B : Type 0} (f : A → B) (q : B → Bool) (xs : List A)
    → any q (map f xs) ≡ any (λ x. q (f x)) xs
any_of_map f q [] = refl
any_of_map f q (x ∷ xs) = ap (λ b. q (f x) || b) (any_of_map f q xs)

-- The hashes of two lists of chunks with the same contents.
pub any_hash-same :
    (sha256 : Text → Text) {A B : Type 0} (f : A → Text) (g : B → Text) (h : Text) (xs : List A)
    (ys : List B)
    → map f xs ≡ map g ys
    → any_hash sha256 f h xs ≡ any_hash sha256 g h ys
any_hash-same sha256 f g h xs ys e =
    sym (any_of_map f (λ t. text_eq (sha256 t) h) xs)
    ∙ (ap (any (λ t. text_eq (sha256 t) h)) e ∙ any_of_map g (λ t. text_eq (sha256 t) h) ys)

module _ (V : Type 0) (d : Corpus V) (laws : TableLaws d.chunks) (sha256 : Text → Text) where
  -- A row among those that are written has the document, and the hash of a chunk.
  pub chunk_rows_old :
      (draw : Draw) (id : Text) (i : ℕ) (es : List (EmbeddedChunk V)) (row : ChunkRow V) (h : Text)
      → In row (chunk_rows V d sha256 draw id i es)
      → row.content_hash ≡ some h
      → any_hash sha256 embedded_content h es ≡ true
  unfolding chunk_rows chunk_row
  chunk_rows_old draw id i [] row h there e = absurd there
  chunk_rows_old draw id i (x ∷ es) row h (inl same) e =
      let hash : sha256 x.chunk.content ≡ h =
        some_injective (sym (ap (λ (r : ChunkRow V). r.content_hash) same) ∙ e) in
      ground (arith, (text_eq_iff (sha256 x.chunk.content) h).1 hash)
    where
      some_injective : {a b : Text} → some a ≡ some b → a ≡ b
      some_injective e = cc
  chunk_rows_old draw id i (x ∷ es) row h (inr there) e =
      ground (arith, chunk_rows_old draw id (suc i) es row h there e)

  -- And each hash of a chunk has its row.
  pub chunk_rows_new :
      (draw : Draw) (id : Text) (i : ℕ) (es : List (EmbeddedChunk V)) (h : Text)
      → any_hash sha256 embedded_content h es ≡ true
      → (row : ChunkRow V) × In row (chunk_rows V d sha256 draw id i es)
        × (row.document_id ≡ id)
        × (row.content_hash ≡ some h)
  unfolding chunk_rows chunk_row
  chunk_rows_new draw id i [] h e = absurd (cc)
  chunk_rows_new draw id i (x ∷ es) h e = elim (Bool-cases (text_eq (sha256 x.chunk.content) h)) [
    | inl here ↦ (
      chunk_row V d sha256 draw id i x,
      inl refl,
      refl,
      ap some ((text_eq_iff (sha256 x.chunk.content) h).0 here),
    )
    | inr later ↦
        let (row, there, own, hash) = chunk_rows_new draw id (suc i) es h (rw later at e) in
        (row, inr there, own, hash)
  ]

  -- What is in the table after `save_chunks`.
  pub Has-save_chunks :
      (draw : Draw) (id : Text) (es : List (EmbeddedChunk V)) (s s' : State V d)
      (rows : List (ChunkRow V))
      → save_chunks V d sha256 draw id es s ≡ (s', ok rows)
      → (row : ChunkRow V)
      → d.chunks.Has row s'.chunks
        ↔ (d.chunks.Has row s.chunks ⊎ In row (chunk_rows V d sha256 draw id 0 es))
  unfolding save_chunks insert_chunks chunk_rows
  Has-save_chunks draw id [] s s' rows e row =
      let same : s.chunks ≡ s'.chunks =
        ap (λ (q : State V d × Reply (List (ChunkRow V))). q.0.chunks) e in
      rw (← same)
        ((λ there. inl there), λ known. elim known [ inl there ↦ there | inr other ↦ absurd other ])
  Has-save_chunks draw id (x ∷ es) s s' rows e row =
      let (t, wrote, end) = write-first _ _ _ s e in
      let same : t ≡ s'.chunks =
        ap (λ (q : State V d × Reply (List (ChunkRow V))). q.0.chunks) end in
      rw (← same)
        (laws.Has-insert_all (chunk_rows V d sha256 draw id 0 (x ∷ es)) s.chunks wrote row)

  pub Has-delete_chunks_by_ids :
      (ids : List Text) (s s' : State V d)
      → delete_chunks_by_ids V d ids s ≡ (s', ok tt)
      → (row : ChunkRow V)
      → d.chunks.Has row s'.chunks ↔ (d.chunks.Has row s.chunks × (of_ids ids row ≡ false))
  unfolding delete_chunks_by_ids delete_chunks
  Has-delete_chunks_by_ids [] s s' e row =
      let same : s.chunks ≡ s'.chunks = ap (λ (q : State V d × Reply (Unit {0})). q.0.chunks) e in
      rw (← same) ((λ there. (there, refl)), λ (there, _). there)
  Has-delete_chunks_by_ids (id ∷ ids) s s' e row =
      let (t, wrote, end) = write-only _ _ s e in
      let same : t ≡ s'.chunks = ap (λ (q : State V d). q.chunks) end in
      rw (← same) (laws.Has-delete (of_ids (id ∷ ids)) s.chunks wrote row)

  module _ {C : Type 0} (content : C → Text) (chunks : List C) where
    -- An identifier is among the stale ones if a stale row has it.
    pub stale_ids_old :
        (old : List (ChunkRow V)) (row : ChunkRow V)
        → of_ids (stale_ids sha256 content chunks (map stored old)) row ≡ true
        → (q : ChunkRow V) × In q old
          × (is_stale sha256 content chunks (stored q) ≡ true)
          × (row.id ≡ q.id)
    unfolding stale_ids
    stale_ids_old [] row e = absurd (cc)
    stale_ids_old (q ∷ old) row e = elim (Bool-cases (is_stale sha256 content chunks (stored q))) [
      | inr kept ↦
          let (r, there, stale, same) = stale_ids_old old row (rw kept at e) in
          (r, inr there, stale, same)
      | inl gone ↦ elim (Bool-cases (text_eq row.id q.id)) [
        | inl here ↦ (q, inl refl, gone, (text_eq_iff row.id q.id).0 here)
        | inr later ↦
            let (r, there, stale, same) = stale_ids_old old row (rw (gone, later) at e) in
            (r, inr there, stale, same)
      ]
    ]

    pub stale_ids_new :
        (old : List (ChunkRow V)) (row : ChunkRow V)
        → In row old
        → is_stale sha256 content chunks (stored row) ≡ true
        → of_ids (stale_ids sha256 content chunks (map stored old)) row ≡ true
    unfolding stale_ids
    stale_ids_new [] row there e = absurd there
    stale_ids_new (q ∷ old) row (inl same) e =
        let gone : is_stale sha256 content chunks (stored q) ≡ true =
          rw (ap (λ (r : ChunkRow V). is_stale sha256 content chunks (stored r)) same) at e in
        rw (gone, (text_eq_iff row.id q.id).1 (ap (λ (r : ChunkRow V). r.id) same)) refl
    stale_ids_new (q ∷ old) row (inr there) e =
        let later = stale_ids_new old row there e in
        elim (Bool-cases (is_stale sha256 content chunks (stored q))) [
          | inr kept ↦ rw kept later
          | inl gone ↦ rw gone (ground (arith, later))
        ]

  -- A hash among the old ones is that of a row.
  pub old_hashes_row :
      (old : List (ChunkRow V)) (h : Text)
      → any (text_eq h) (old_hashes (map stored old)) ≡ true
      → (q : ChunkRow V) × In q old × (q.content_hash ≡ some h)
  unfolding old_hashes
  old_hashes_row [] h e = absurd (cc)
  old_hashes_row (q ∷ old) h e = elim (Option-cases q.content_hash) [
    | inl missing ↦
        let (r, there, hash) = old_hashes_row old h (rw missing at e) in (r, inr there, hash)
    | inr (k, found) ↦ elim (Bool-cases (is_empty k)) [
      | inl empty ↦
          let (r, there, hash) = old_hashes_row old h (rw (found, empty) at e) in
          (r, inr there, hash)
      | inr full ↦ elim (Bool-cases (text_eq h k)) [
        | inl here ↦ (q, inl refl, found ∙ ap some (sym ((text_eq_iff h k).0 here)))
        | inr later ↦
            let (r, there, hash) = old_hashes_row old h (rw (found, full, later) at e) in
            (r, inr there, hash)
      ]
    ]
  ]
