-- ===== src/Retrieval.antt =====
-- The chunks that a retrieval returns (agent/models.py) and the confidence gate of agent/tools.py,
-- the fallback of agent/retriever.py, and agent/access_control.py.
pub mod Rerank
pub mod Results
pub mod Readers
pub mod Search
use agentic_rag_backend.Base.{
  ℕ, Bool, true, false, ◌&&◌, ◌||◌, not, Option, none, some, List, [], ◌∷◌, map, keep_if, any,
  if◌then◌else◌,
}
use agentic_rag_backend.Base.Text.{Text, Unicode, codes, strip, is_empty, text_eq, split_char}

-- Floating-point numbers, as far as the program compares them.
pub record Floats : Type 1 where
  pub Float : Type 0
  pub zero : Float
  pub one : Float
  pub less : Float → Float → Bool

-- `ChunkResult`. The metadata is left out.
pub record ChunkResult (fl : Floats) : Type 0 where
  pub chunk_id : Text
  pub document_id : Text
  pub content : Text
  pub score : fl.Float
  pub vector_similarity : fl.Float
  pub document_title : Text
  pub document_source : Text

module _ (fl : Floats) where
  -- `max(a, b)` and `min(a, b)` of Python, which keep `a` unless `b` is strictly beyond it.
  abbrev pub max_float : fl.Float → fl.Float → fl.Float
  max_float a b = if fl.less a b then b else a

  abbrev pub min_float : fl.Float → fl.Float → fl.Float
  min_float a b = if fl.less b a then b else a

  unfoldable pub max_from : fl.Float → List (ChunkResult fl) → fl.Float
  max_from best [] = best
  max_from best (c ∷ cs) = max_from (max_float best c.vector_similarity) cs

  unfoldable pub max_cosine_similarity : List (ChunkResult fl) → fl.Float
  unfolding max_from
  max_cosine_similarity [] = fl.zero
  max_cosine_similarity (c ∷ cs) = max_from c.vector_similarity cs

  -- The threshold is `CONFIDENCE_MIN_SIMILARITY`.
  unfoldable pub is_low_confidence : fl.Float → List (ChunkResult fl) → Bool
  is_low_confidence threshold chunks = fl.less (max_cosine_similarity chunks) threshold

  -- A row of either search engine; `none` is a missing key.
  pub record Row : Type 0 where
    pub chunk_id : Text
    pub document_id : Text
    pub content : Text
    pub combined_score : Option fl.Float
    pub similarity : Option fl.Float
    pub cosine_similarity : Option fl.Float
    pub document_title : Text
    pub document_source : Text

  unfoldable pub or_zero : Option fl.Float → fl.Float
  or_zero none = fl.zero
  or_zero (some x) = x

  -- `HybridRetriever._postgres_fallback`, of the rows that the `hybrid_search` call returns.
  unfoldable pub postgres_fallback : Option (List Row) → Option (List Row)
  postgres_fallback none = none
  postgres_fallback (some rows) =
      some (map {A = Row} (λ r. record r { cosine_similarity = some (or_zero r.similarity) }) rows)

  -- `HybridRetriever.retrieve`, of the outcomes of the two engines; `none` is an exception.
  unfoldable pub retrieve : Bool → Option (List Row) → Option (List Row) → Option (List Row)
  retrieve vespa_enabled vespa postgres =
      let fallback = postgres_fallback postgres in
      if vespa_enabled
      then elim vespa [
        | none ↦ fallback
        | some rows ↦ elim rows [ [] ↦ fallback | r ∷ rs ↦ some (r ∷ rs) ]
      ]
      else fallback

-- `assign_access_level`
unfoldable pub assign_access_level : Text → Text
assign_access_level bucket_type =
    if text_eq bucket_type (codes "private") then codes "private" else codes "public"

-- The entries of a comma-separated environment variable.
unfoldable pub users_of : Unicode → Text → List Text
users_of u setting =
    map (strip u) (keep_if (λ t. not (is_empty (strip u t))) (split_char b',' setting))

-- `can_access_document`; the two variables are `ADMIN_USERS` and `PRIVATE_DOCUMENT_USERS`.
unfoldable pub can_access_document : Unicode → Text → Text → Option Text → Text → Bool
can_access_document u admin_users private_users none access_level =
    text_eq access_level (codes "public")
can_access_document u admin_users private_users (some user_id) access_level =
    if text_eq access_level (codes "public")
    then true
    else if is_empty user_id
    then false
    else if any (text_eq user_id) (users_of u admin_users)
    then true
    else any (text_eq user_id) (users_of u private_users)
