-- ===== src/Ingest/Exact.antt =====
-- The diff embeds what is missing, and nothing that is stored.
use agentic_rag_backend.Base.{
  ◌≡◌, refl, ap, sym, ◌∙◌, inl, inr, Bool, true, false, not, ◌&&◌, ◌||◌, List, [], ◌∷◌, map,
  keep_if, any, if_elim, arith, Bool-cases, All,
}
use agentic_rag_backend.Base.Dict
use agentic_rag_backend.Base.Dict.{get-put}
use agentic_rag_backend.Base.Text.{Text, text_eq, text_eq_iff, text_eq_sound}
use agentic_rag_backend.Ingest.{
  StoredChunk, has, hashed, new_chunk_hashes, old_hashes, chunks_to_embed,
}

has-put :
    {C : Type 0} (h k : Text) (c : C) (d : List (Text × C))
    → has h (Dict.put k c d) ≡ (text_eq k h || has h d)
unfolding has
has-put h k c d = ground (arith, get-put k h c d)

module _ (sha256 : Text → Text) {C : Type 0} (content : C → Text) where
  -- Some content has the hash.
  abbrev pub any_hash : Text → List C → Bool
  any_hash h = any (λ c. text_eq (sha256 (content c)) h)

  has-hashed :
      (h : Text) (chunks : List C) (d : List (Text × C))
      → has h (hashed sha256 content chunks d) ≡ (any_hash h chunks || has h d)
  unfolding hashed
  has-hashed h [] d = refl
  has-hashed h (c ∷ chunks) d = ground (
    arith,
    has-hashed h chunks (Dict.put (sha256 (content c)) c d),
    has-put h (sha256 (content c)) c d,
  )

  has-nil : (h : Text) (b : Bool) → (b || has {C = C} h []) ≡ b
  unfolding has Dict.get
  has-nil h true = refl
  has-nil h false = refl

  pub has-new_chunk_hashes :
      (h : Text) (chunks : List C)
      → has h (new_chunk_hashes sha256 content chunks) ≡ any_hash h chunks
  unfolding new_chunk_hashes
  has-new_chunk_hashes h chunks = has-hashed h chunks [] ∙ has-nil h _

  -- Every entry has its content's hash.
  abbrev Hashed : Text × C → Type 0
  Hashed e = sha256 (content e.1) ≡ e.0

  put-Hashed :
      (c : C) (d : List (Text × C)) → All Hashed d → All Hashed (Dict.put (sha256 (content c)) c d)
  unfolding Dict.put
  put-Hashed c [] h = (refl, tt)
  put-Hashed c ((j, w) ∷ d) (p, h) =
      if_elim (All Hashed) (text_eq j (sha256 (content c)))
        (λ same. (sym ((text_eq_iff j (sha256 (content c))).0 same), h))
        (λ _. (p, put-Hashed c d h))

  hashed-Hashed :
      (chunks : List C) (d : List (Text × C))
      → All Hashed d
      → All Hashed (hashed sha256 content chunks d)
  unfolding hashed
  hashed-Hashed [] d h = h
  hashed-Hashed (c ∷ chunks) d h =
      hashed-Hashed chunks (Dict.put (sha256 (content c)) c d) (put-Hashed c d h)

  -- Of the entries that are kept, some content has the hash just if the hash is there and kept.
  any_hash-keep_if :
      (old : List Text) (h : Text) (d : List (Text × C))
      → All Hashed d
      → any_hash h (map {A = Text × C} (λ e. e.1) (keep_if (λ e. not (any (text_eq e.0) old)) d))
        ≡ (has h d && not (any (text_eq h) old))
  unfolding has Dict.get
  any_hash-keep_if old h [] _ = refl
  any_hash-keep_if old h ((k, c) ∷ d) (p, ps) =
      let ih = any_hash-keep_if old h d ps in
      let at : text_eq (sha256 (content c)) h ≡ text_eq k h = ap (λ x. text_eq x h) p in
      elim (Bool-cases (text_eq k h)) [
        | inr other ↦ ground (arith, ih, at, other)
        | inl here ↦
            let same : any (text_eq k) old ≡ any (text_eq h) old =
              ap (λ x. any (text_eq x) old) (text_eq_sound k h here) in
            ground (arith, ih, at, here, same)
      ]

  -- A hash is among the chunks to embed exactly when it is among the new chunks and no stored
  -- chunk of the document has it: what is stored is not embedded again, and nothing is missed.
  pub chunks_to_embed-any_hash :
      (chunks : List C) (old_chunks : List StoredChunk) (h : Text)
      → any_hash h (chunks_to_embed sha256 content chunks old_chunks)
        ≡ (any_hash h chunks && not (any (text_eq h) (old_hashes old_chunks)))
  unfolding chunks_to_embed new_chunk_hashes
  chunks_to_embed-any_hash chunks old_chunks h =
      any_hash-keep_if (old_hashes old_chunks) h _ (hashed-Hashed chunks [] tt)
      ∙ ap (λ b. b && not (any (text_eq h) (old_hashes old_chunks)))
          (has-hashed h chunks [] ∙ has-nil h _)
