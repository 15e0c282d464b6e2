-- ===== src/Embedder.antt =====
-- `EmbeddingGenerator` of ingestion/embedder.py: retries, the fallback to single texts, batches.
-- The embedding service is a parameter: its replies are given by the number of calls before.
-- Waiting between two attempts, logging and the progress callback are left out.
pub mod Complete
pub mod Cache
pub mod Cached
use agentic_rag_backend.Base.{
  ℕ, zero, suc, ◌*◌, Bool, true, false, ◌||◌, Option, none, some, List, [], ◌∷◌, ◌++◌, map, ltb,
  ◌==◌, if◌then◌else◌, length, take, drop,
}
use agentic_rag_backend.Base.Dict
use agentic_rag_backend.Base.Outcome.{Outcome, returned, raised, out_of_fuel, ◌>>=◌}
use agentic_rag_backend.Base.Text.{Text, Unicode, codes, strip, is_empty}
use agentic_rag_backend.Chunker.Config.{DocumentChunk, Field, str}

-- The generator's settings, with the limits of its model.
pub record EmbedderConfig : Type 0 where
  pub model : Text
  pub batch_size : ℕ
  pub max_retries : ℕ
  pub dimensions : ℕ
  pub max_tokens : ℕ

-- What a call of the service comes to.
pub data Reply {ℓ} (V : Type ℓ) : Type ℓ where
  embedded : List V → Reply V
  rate_limited api_error other_error : Text → Reply V

-- What a method comes to: a value, an exception with its text, or Python's `None`.
pub data Tried {ℓ} (A : Type ℓ) : Type ℓ where
  got : A → Tried A
  failed : Text → Tried A
  nothing : Tried A

module _ {ℓ} {V : Type ℓ} (u : Unicode) (k : EmbedderConfig) (service : ℕ → List Text → Reply V)
    (zeros : ℕ → V) (no_item not_iterable : Text) where
  -- A chunk with its `embedding` attribute; `none` is `None`.
  pub record Embedded : Type ℓ where
    pub chunk : DocumentChunk
    pub embedding : Option V

  unfoldable pub truncate : Text → Text
  truncate text =
      if ltb (k.max_tokens * 4) (length text) then take (k.max_tokens * 4) text else text

  -- The loop of `generate_embedding`, with the attempts that are left. An error of the last
  -- attempt is raised. A reply without vectors is an IndexError, with the text `no_item`.
  unfoldable pub try_single : ℕ → ℕ → Text → ℕ × Tried V
  try_single zero n text = (n, nothing)
  try_single (suc rounds) n text =
      let again = try_single rounds (suc n) text in
      let give_up = λ (reason : Text). if rounds == 0 then (suc n, failed reason) else again in
      elim (service n (text ∷ [])) [
        | embedded [] ↦ give_up no_item
        | embedded (v ∷ vs) ↦ (suc n, got v)
        | rate_limited reason ↦ give_up reason
        | api_error reason ↦ give_up reason
        | other_error reason ↦ give_up reason
      ]

  unfoldable pub generate_embedding : ℕ → Text → ℕ × Tried V
  generate_embedding n text = try_single k.max_retries n (truncate text)

  -- The vector of one text in `_process_individually`; an exception becomes the zero vector.
  unfoldable pub vector_of : Tried V → Option V
  vector_of (got v) = some v
  vector_of (failed reason) = some (zeros k.dimensions)
  vector_of nothing = none

  -- `_process_individually`
  unfoldable pub process_individually : ℕ → List Text → ℕ × List (Option V)
  process_individually n [] = (n, [])
  process_individually n (text ∷ texts) =
      let blank = process_individually n texts in
      let one = generate_embedding n text in
      let rest = process_individually one.0 texts in
      if is_empty (strip u text)
      then (blank.0, some (zeros k.dimensions) ∷ blank.1)
      else (rest.0, vector_of one.1 ∷ rest.1)

  -- The loop of `generate_embeddings_batch`: only a rate limit is raised in the end.
  unfoldable pub try_batch : ℕ → ℕ → List Text → ℕ × Tried (List (Option V))
  try_batch zero n texts = (n, nothing)
  try_batch (suc rounds) n texts =
      let again = try_batch rounds (suc n) texts in
      let single = process_individually (suc n) texts in
      let fall_back = if rounds == 0 then (single.0, got single.1) else again in
      elim (service n texts) [
        | embedded vs ↦ (suc n, got (map some vs))
        | rate_limited reason ↦ (if rounds == 0 then (suc n, failed reason) else again)
        | api_error reason ↦ fall_back
        | other_error reason ↦ fall_back
      ]

  unfoldable pub prepared : Text → Text
  prepared text = if is_empty (strip u text) then [] else truncate text

  unfoldable pub generate_embeddings_batch : ℕ → List Text → ℕ × Tried (List (Option V))
  generate_embeddings_batch n texts = try_batch k.max_retries n (map prepared texts)

  module _ (now : Text) where
    -- `zip(batch_chunks, embeddings)`: the shorter list ends it.
    unfoldable pub attach : List DocumentChunk → List (Option V) → List Embedded
    attach [] es = []
    attach (c ∷ cs) [] = []
    attach (c ∷ cs) (e ∷ es) =
        record {
          chunk = record c {
            metadata =
                Dict.put (codes "embedding_generated_at") (str now)
                  (Dict.put (codes "embedding_model") (str k.model) c.metadata);
          };
          embedding = e;
        }
        ∷ attach cs es

    -- The chunks of a batch that failed.
    unfoldable pub without : Text → List DocumentChunk → List Embedded
    without reason [] = []
    without reason (c ∷ cs) =
        record {
          chunk = record c {
            metadata =
                Dict.put (codes "embedding_generated_at") (str now)
                  (Dict.put (codes "embedding_error") (str reason) c.metadata);
          };
          embedding = some (zeros k.dimensions);
        }
        ∷ without reason cs

    -- What becomes of a batch: an exception gives its chunks without a vector.
    unfoldable pub settle : List DocumentChunk → Tried (List (Option V)) → List Embedded
    settle chunks (got es) = attach chunks es
    settle chunks (failed reason) = without reason chunks
    settle chunks nothing = without not_iterable chunks

    unfoldable pub embed_batch : ℕ → List DocumentChunk → ℕ × List Embedded
    embed_batch n chunks =
        let done = generate_embeddings_batch n (map (λ c. c.content) chunks) in
        (done.0, settle chunks done.1)

    -- `for i in range(0, len(chunks), batch_size)`, with the batches that are left.
    unfoldable pub embed_loop : ℕ → ℕ → List DocumentChunk → Outcome (List Embedded)
    embed_loop fuel n [] = returned []
    embed_loop zero n (c ∷ cs) = out_of_fuel
    embed_loop (suc fuel) n (c ∷ cs) =
        let batch = embed_batch n (take k.batch_size (c ∷ cs)) in
        embed_loop fuel batch.0 (drop k.batch_size (c ∷ cs)) >>= λ rest. returned (batch.1 ++ rest)

    -- `embed_chunks`. A batch size of 0 is refused by `range`. There are no more batches than chunks.
    unfoldable pub embed_chunks : ℕ → List DocumentChunk → Outcome (List Embedded)
    embed_chunks n [] = returned []
    embed_chunks n (c ∷ cs) =
        let run = embed_loop (length (c ∷ cs)) n (c ∷ cs) in
        if k.batch_size == 0 then raised else run
