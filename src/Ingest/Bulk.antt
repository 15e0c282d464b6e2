-- ===== src/Ingest/Bulk.antt =====
-- ingestion/ingest_service.py: `IngestStats`, `ingest_from_s3`, `ingest_all_s3_buckets` and
-- `ingest_single_s3_object`. The object store and the parsers of files are parameters.
use agentic_rag_backend.Base.{
  ℕ, suc, ◌+◌, Bool, Option, none, some, List, [], ◌∷◌, ◌++◌, if◌then◌else◌,
}
use agentic_rag_backend.Base.Dict
use agentic_rag_backend.Base.Text.{Text, codes, text_eq, is_empty}
use agentic_rag_backend.Chunker.Config.{Metadata, str}
use agentic_rag_backend.Retrieval.{assign_access_level}
use agentic_rag_backend.Ingest.Documents.{Corpus, State, Draw, Source}
use agentic_rag_backend.Ingest.Service.{
  Status, inserted, updated, skipped, failure, IngestResult, Pipeline, failed_result,
  ingest_document,
}

pub record IngestStats : Type 0 where
  pub inserted_count : ℕ
  pub updated_count : ℕ
  pub skipped_count : ℕ
  pub failed_count : ℕ
  pub results : List IngestResult

abbrev pub no_stats : IngestStats
no_stats = record {
  inserted_count = 0;
  updated_count = 0;
  skipped_count = 0;
  failed_count = 0;
  results = [];
}

unfoldable pub total : IngestStats → ℕ
total t = t.inserted_count + t.updated_count + t.skipped_count + t.failed_count

-- The object store: whether it can be reached, its keys, the names of a key, whether an object can
-- be downloaded, and its text with what its file says of it, `none` where parsing raises.
pub record ObjectStore : Type 0 where
  pub reachable : Bool
  pub private_bucket : Text
  pub keys : Text → Text → List Text
  pub stem : Text → Text
  pub download : Text → Text → Bool
  pub parse : Text → Text → Option (Text × Metadata)

-- A result counted by its status.
unfoldable pub counted : Status → IngestStats → IngestStats
counted inserted t = record t { inserted_count = suc t.inserted_count }
counted updated t = record t { updated_count = suc t.updated_count }
counted skipped t = record t { skipped_count = suc t.skipped_count }
counted failure t = record t { failed_count = suc t.failed_count }

unfoldable pub add_result : IngestResult → IngestStats → IngestStats
add_result r t = counted r.status (record t { results = t.results ++ r ∷ [] })

-- What the file of an object says, and where the object comes from.
abbrev pub object_metadata : Text → Text → Metadata → Metadata
object_metadata bucket_type key meta =
    Dict.put (codes "s3_key") (str key) (Dict.put (codes "bucket_type") (str bucket_type) meta)

module _ (V : Type 0) (d : Corpus V) (p : Pipeline V) (o : ObjectStore) (draws : Text → Draw) where
  -- One object: its result, or `none` where parsing raises.
  unfoldable pub ingest_object : Text → Text → State V d → State V d × Option IngestResult
  ingest_object bucket_type key s =
      if o.download key bucket_type
      then (elim (o.parse key bucket_type) [
        | none ↦ (s, none)
        | some (text, meta) ↦
            (let source : Source = record {
              content = text;
              source = key;
              title = o.stem key;
              metadata = object_metadata bucket_type key meta;
              access_level = assign_access_level bucket_type;
            } in
              let ran = ingest_document V d p (draws key) source s in
              if is_empty text
              then (s, some (failed_result key (codes "Empty content")))
              else (ran.0, some ran.1))
      ])
      else (s, some (failed_result key (codes "Download failed")))

  -- The loop over the keys.
  unfoldable pub ingest_keys :
      Text → List Text → State V d → IngestStats → State V d × Option IngestStats
  ingest_keys bucket_type [] s t = (s, some t)
  ingest_keys bucket_type (key ∷ keys) s t = elim (ingest_object bucket_type key s).1 [
    | none ↦ ((ingest_object bucket_type key s).0, none)
    | some r ↦ ingest_keys bucket_type keys (ingest_object bucket_type key s).0 (add_result r t)
  ]

  unfoldable pub ingest_from_s3 : Text → Text → State V d → State V d × Option IngestStats
  ingest_from_s3 bucket_type prefix s =
      if o.reachable
      then ingest_keys bucket_type (o.keys bucket_type prefix) s no_stats
      else (s, some no_stats)

  -- `stats` with those of one bucket added
  unfoldable pub merged : IngestStats → IngestStats → IngestStats
  merged t b = record {
    inserted_count = t.inserted_count + b.inserted_count;
    updated_count = t.updated_count + b.updated_count;
    skipped_count = t.skipped_count + b.skipped_count;
    failed_count = t.failed_count + b.failed_count;
    results = t.results ++ b.results;
  }

  unfoldable pub ingest_buckets :
      List Text → State V d → IngestStats → State V d × Option IngestStats
  ingest_buckets [] s t = (s, some t)
  ingest_buckets (bucket_type ∷ rest) s t = elim (ingest_from_s3 bucket_type [] s).1 [
    | none ↦ ((ingest_from_s3 bucket_type [] s).0, none)
    | some b ↦ ingest_buckets rest (ingest_from_s3 bucket_type [] s).0 (merged t b)
  ]

  unfoldable pub ingest_all_s3_buckets : State V d → State V d × Option IngestStats
  ingest_all_s3_buckets s = ingest_buckets (codes "private" ∷ codes "public" ∷ []) s no_stats

  unfoldable pub ingest_single_s3_object : Text → Text → State V d → State V d × Option IngestResult
  ingest_single_s3_object s3_key bucket_name s =
      ingest_object
        (if text_eq bucket_name o.private_bucket then codes "private" else codes "public") s3_key s
