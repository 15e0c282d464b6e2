-- ===== src/Ingest/Counts.antt =====
-- A bulk run accounts for every object.
use agentic_rag_backend.Base.{
  ℕ, suc, ◌+◌, ◌≡◌, refl, some, List, [], ◌∷◌, ◌++◌, length, if◌then◌else◌, arith, length-append,
  Option-cases, Bool-cases, inl, inr,
}
use agentic_rag_backend.Base.Text.{Text}
use agentic_rag_backend.Ingest.Documents.{Corpus, State, Draw}
use agentic_rag_backend.Ingest.Service.{
  Status, inserted, updated, skipped, failure, IngestResult, Pipeline,
}
use agentic_rag_backend.Ingest.Bulk.{
  IngestStats, no_stats, total, ObjectStore, counted, add_result, ingest_object, ingest_keys,
  ingest_from_s3,
}

counted_lem :
    (status : Status) (t : IngestStats)
    → (total (counted status t) ≡ suc (total t)) × ((counted status t).results ≡ t.results)
unfolding counted total
counted_lem inserted t = (omega arith, refl)
counted_lem updated t = (omega arith, refl)
counted_lem skipped t = (omega arith, refl)
counted_lem failure t = (omega arith, refl)

-- The totals of a run that started with `t` and went through `n` objects.
abbrev Counts : ℕ → IngestStats → IngestStats → Type 0
Counts n t t' = (total t' ≡ total t + n) × (length t'.results ≡ length t.results + n)

module _ (V : Type 0) (d : Corpus V) (p : Pipeline V) (o : ObjectStore) (draws : Text → Draw) where
  add_result_lem : (r : IngestResult) (t : IngestStats) → Counts 1 t (add_result r t)
  unfolding add_result total
  add_result_lem r t =
      let (sum, same) = counted_lem r.status (record t { results = t.results ++ r ∷ [] }) in
      (omega (arith, sum), rw same (omega (arith, length-append t.results (r ∷ []))))

  ingest_keys-Counts :
      (bucket_type : Text) (keys : List Text) (s : State V d) (t t' : IngestStats)
      → (ingest_keys V d p o draws bucket_type keys s t).1 ≡ some t'
      → Counts (length keys) t t'
  unfolding ingest_keys
  ingest_keys-Counts bucket_type [] s t t' h =
      let same : t ≡ t' = cc in rw (← same) (omega arith, omega arith)
  ingest_keys-Counts bucket_type (key ∷ keys) s t t' h =
      elim (Option-cases (ingest_object V d p o draws bucket_type key s).1) [
        | inl e ↦ absurd (cc (rw (e, ingest_keys) at h))
        | inr (r, e) ↦
            let rest =
              ingest_keys-Counts bucket_type keys (ingest_object V d p o draws bucket_type key s).0
                (add_result r t) t' (rw (e, ingest_keys) at h) in
            let one = add_result_lem r t in
            (omega (arith, rest.0, one.0), omega (arith, rest.1, one.1))
      ]

  -- A run over a bucket that returns has one result for each key of the bucket, and its counters add
  -- up to their number; a store that cannot be reached gives none.
  pub ingest_from_s3-total :
      (bucket_type prefix : Text) (s : State V d) (t : IngestStats)
      → (ingest_from_s3 V d p o draws bucket_type prefix s).1 ≡ some t
      → (total t ≡ length t.results)
        × (length t.results ≡ (if o.reachable then length (o.keys bucket_type prefix) else 0))
  unfolding ingest_from_s3 total ingest_keys ingest_object
  ingest_from_s3-total bucket_type prefix s t h = elim (Bool-cases o.reachable) [
    | inl e ↦
        let (sum, n) =
          ingest_keys-Counts bucket_type (o.keys bucket_type prefix) s no_stats t (rw e at h) in
        rw e (omega (arith, sum, n), omega (arith, n))
    | inr e ↦ let same : no_stats ≡ t = cc in rw (e, ← same) (refl, refl)
  ]
