-- ===== src/Embedder/Complete.antt =====
-- `embed_chunks` loses no chunk, whatever the service's errors are.
use agentic_rag_backend.Base.{
  ℕ, zero, suc, ◌≤◌, ◌<◌, ◌≡◌, refl, sym, ap, ◌∙◌, Option, some, List, [], ◌∷◌, ◌++◌, map, ◌==◌,
  if◌then◌else◌, if_elim, arith, length, length-map, length-drop, take, drop, take-append-drop,
  map-append,
}
use agentic_rag_backend.Base.Outcome.{returned}
use agentic_rag_backend.Base.Text.{Text, Unicode, strip, is_empty}
use agentic_rag_backend.Chunker.Config.{DocumentChunk}
use agentic_rag_backend.Embedder.{
  EmbedderConfig, Reply, embedded, rate_limited, api_error, other_error, Tried, got, failed,
  nothing, Embedded, process_individually, generate_embedding, try_batch, generate_embeddings_batch,
  prepared, attach, without, settle, embed_batch, embed_loop, embed_chunks,
}

abbrev pub contents : List DocumentChunk → List Text
contents = map (λ c. c.content)

module _ {ℓ} {V : Type ℓ} (u : Unicode) (k : EmbedderConfig) (service : ℕ → List Text → Reply V)
    (zeros : ℕ → V) (no_item not_iterable : Text) where
  abbrev pub embedded_contents : List (Embedded u k service zeros no_item not_iterable) → List Text
  embedded_contents = map (λ e. e.chunk.content)

  length-process_individually :
      (n : ℕ) (texts : List Text)
      → length (process_individually u k service zeros no_item not_iterable n texts).1
        ≡ length texts
  unfolding process_individually
  length-process_individually n [] = refl
  length-process_individually n (t ∷ ts) =
      if_elim (λ (r : ℕ × List (Option V)). length r.1 ≡ suc (length ts)) (is_empty (strip u t))
        (λ _. ap suc (length-process_individually n ts))
        (λ _. ap suc (
          length-process_individually
            (generate_embedding u k service zeros no_item not_iterable n t).0 ts))

  -- The batch has a vector for each text, if it has vectors.
  abbrev Sized : ℕ → Tried (List (Option V)) → Type 0
  Sized size (got es) = length es ≡ size
  Sized size (failed reason) = Unit
  Sized size nothing = Unit

  module _
      (sized : (n : ℕ) (texts : List Text) (vs : List V)
        → service n texts ≡ embedded vs
        → length vs ≡ length texts) where
    fall_back-Sized :
        (rounds n : ℕ) (texts : List Text) (again : ℕ × Tried (List (Option V)))
        → Sized (length texts) again.1
        → Sized
            (length texts)
            (let single =
                process_individually u k service zeros no_item not_iterable (suc n) texts in
              if rounds == 0 then (single.0, got single.1) else again).1
    fall_back-Sized rounds n texts again = λ h.
        if_elim (λ (x : ℕ × Tried (List (Option V))). Sized (length texts) x.1) (rounds == 0)
          (λ _. length-process_individually (suc n) texts) (λ _. h)

    reply-Sized :
        (rounds n : ℕ) (texts : List Text) (reply : Reply V)
        → service n texts ≡ reply
        → Sized
            (length texts)
            (try_batch u k service zeros no_item not_iterable rounds (suc n) texts).1
        → Sized
            (length texts)
            (try_batch u k service zeros no_item not_iterable (suc rounds) n texts).1
    unfolding try_batch
    reply-Sized rounds n texts (embedded vs) e h =
        rw (e, Sized) (length-map some vs ∙ sized n texts vs e)
    reply-Sized rounds n texts (rate_limited reason) e h =
        rw (e, Sized)
          (if_elim (λ (x : ℕ × Tried (List (Option V))). Sized (length texts) x.1) (rounds == 0)
            (λ _. tt) (λ _. h))
    reply-Sized rounds n texts (api_error reason) e h =
        rw (e, Sized) (fall_back-Sized rounds n texts _ h)
    reply-Sized rounds n texts (other_error reason) e h =
        rw (e, Sized) (fall_back-Sized rounds n texts _ h)

    try_batch-Sized :
        (rounds n : ℕ) (texts : List Text)
        → Sized (length texts) (try_batch u k service zeros no_item not_iterable rounds n texts).1
    unfolding try_batch
    try_batch-Sized zero n texts = tt
    try_batch-Sized (suc rounds) n texts =
        reply-Sized rounds n texts (service n texts) refl (try_batch-Sized rounds (suc n) texts)

    module _ (now : Text) where
      contents-attach :
          (cs : List DocumentChunk) (es : List (Option V))
          → length es ≡ length cs
          → embedded_contents (attach u k service zeros no_item not_iterable now cs es)
            ≡ contents cs
      unfolding attach
      contents-attach [] es h = refl
      contents-attach (c ∷ cs) [] h = absurd (omega arith)
      contents-attach (c ∷ cs) (e ∷ es) h =
          ap (λ t. c.content ∷ t) (contents-attach cs es (omega arith))

      contents-without :
          (reason : Text) (cs : List DocumentChunk)
          → embedded_contents (without u k service zeros no_item not_iterable now reason cs)
            ≡ contents cs
      unfolding without
      contents-without reason [] = refl
      contents-without reason (c ∷ cs) = ap (λ t. c.content ∷ t) (contents-without reason cs)

      contents-settle :
          (cs : List DocumentChunk) (done : Tried (List (Option V)))
          → Sized (length cs) done
          → embedded_contents (settle u k service zeros no_item not_iterable now cs done)
            ≡ contents cs
      unfolding settle
      contents-settle cs (got es) h = contents-attach cs es h
      contents-settle cs (failed reason) h = contents-without reason cs
      contents-settle cs nothing h = contents-without not_iterable cs

      contents-embed_batch :
          (n : ℕ) (cs : List DocumentChunk)
          → embedded_contents (embed_batch u k service zeros no_item not_iterable now n cs).1
            ≡ contents cs
      unfolding embed_batch generate_embeddings_batch
      contents-embed_batch n cs =
          let texts = map (prepared u k service zeros no_item not_iterable) (contents cs) in
          let size : length texts ≡ length cs =
            length-map (prepared u k service zeros no_item not_iterable) (contents cs)
            ∙ length-map (λ c. c.content) cs in
          contents-settle cs _ (rw size at (try_batch-Sized k.max_retries n texts))

      embed_loop-returned :
          (fuel n : ℕ) (cs : List DocumentChunk)
          → 0 < k.batch_size
          → length cs ≤ fuel
          → (out : List (Embedded u k service zeros no_item not_iterable)) × (embed_loop u k service
                zeros no_item not_iterable now fuel n cs
              ≡ returned out)
            × (embedded_contents out ≡ contents cs)
      unfolding embed_loop
      embed_loop-returned fuel n [] some_size enough = ([], refl, refl)
      embed_loop-returned zero n (c ∷ cs) some_size enough = absurd (omega arith)
      embed_loop-returned (suc fuel) n (c ∷ cs) some_size enough =
          let all = c ∷ cs in
          let batch =
            embed_batch u k service zeros no_item not_iterable now n (take k.batch_size all) in
          let len = length-drop k.batch_size all in
          let (out, ran, same) =
            embed_loop-returned fuel batch.0 (drop k.batch_size all) some_size (omega arith) in
          (
            batch.1 ++ out,
            rw ran refl,
            map-append (λ e. e.chunk.content) batch.1 out
                ∙ ap (λ t. t ++ embedded_contents out)
                    (contents-embed_batch n (take k.batch_size all))
                ∙ ap (λ t. contents (take k.batch_size all) ++ t) same
                ∙ sym (map-append (λ c. c.content) (take k.batch_size all) (drop k.batch_size all))
                ∙ ap contents (take-append-drop k.batch_size all),
          )

      -- Where a reply of the service has a vector for each text: with a batch size that is not 0,
      -- `embed_chunks` returns for any sequence of errors, and the chunks that it returns have the
      -- contents of the chunks given, all of them, in order.
      pub embed_chunks_complete :
          (n : ℕ) (cs : List DocumentChunk)
          → 0 < k.batch_size
          → (out : List (Embedded u k service zeros no_item not_iterable)) × (embed_chunks u k
                service zeros no_item not_iterable now n cs
              ≡ returned out)
            × (embedded_contents out ≡ contents cs)
      unfolding embed_chunks
      embed_chunks_complete n [] some_size = ([], refl, refl)
      embed_chunks_complete n (c ∷ cs) some_size =
          let (out, ran, same) =
            embed_loop-returned (length (c ∷ cs)) n (c ∷ cs) some_size (omega arith) in
          (out, ground (arith, ran), same)
