-- ===== src/Embedder/Cached.antt =====
-- `create_embedder` of ingestion/embedder.py: `generate_embedding` behind an `EmbeddingCache`.
use agentic_rag_backend.Base.{ℕ, ◌<◌, ◌≡◌, subst, arith, Option, none, some, List}
use agentic_rag_backend.Base.Text.{Text, Unicode}
use agentic_rag_backend.Embedder.{
  EmbedderConfig, Reply, Tried, got, failed, nothing, generate_embedding,
}
use agentic_rag_backend.Embedder.Cache.{EmbeddingCache, get, put, IsValid, put-IsValid}

-- What `cache.get` returns is `None` on a miss, and also where `None` was stored.
unfoldable pub known {ℓ} : {V : Type ℓ} → Option (Option V) → Option V
known none = none
known (some v) = v

-- The value that is stored, `none` for `None`; an exception stores nothing.
unfoldable pub to_store {ℓ} : {V : Type ℓ} → Tried V → Option (Option V)
to_store (got v) = some (some v)
to_store (failed reason) = none
to_store nothing = some none

module _ {ℓ} {V : Type ℓ} (u : Unicode) (k : EmbedderConfig) (service : ℕ → List Text → Reply V)
    (zeros : ℕ → V) (no_item not_iterable : Text) (md5 : Text → Text) where
  -- The end of a miss. An exception of `put` leaves the call.
  unfoldable pub remember :
      Text → ℕ → EmbeddingCache (Option V) → Tried V → EmbeddingCache (Option V) × Tried V
  remember text now c result = elim (to_store result) [
    | none ↦ (c, result)
    | some value ↦ elim (put md5 text value now c) [
      | none ↦ (c, failed no_item)
      | some c' ↦ (c', result)
    ]
  ]

  -- `cached_generate`: the number of calls of the service, the cache, and the result.
  unfoldable pub cached_generate :
      ℕ → Text → ℕ → EmbeddingCache (Option V) → ℕ × EmbeddingCache (Option V) × Tried V
  cached_generate n text now c =
      let looked = get md5 text now c in
      let made = generate_embedding u k service zeros no_item not_iterable n text in
      let kept = remember text now looked.0 made.1 in
      elim (known looked.1) [ some v ↦ (n, looked.0, got v) | none ↦ (made.0, kept.0, kept.1) ]

  -- With a valid cache of a `max_size` that is not 0, in which the text is not found: if the
  -- service gives the text an embedding, that is the result, and the next request for the text
  -- has the same result without another call of the service.
  pub cached_generate_repeat :
      (n : ℕ) (text : Text) (now later : ℕ) (c : EmbeddingCache (Option V)) {m : ℕ}
      {c' : EmbeddingCache (Option V)} {v : V} {result : Tried V}
      → IsValid md5 c
      → 0 < c.max_size
      → get md5 text now c ≡ (c, none)
      → (generate_embedding u k service zeros no_item not_iterable n text).1 ≡ got v
      → cached_generate n text now c ≡ (m, c', result)
      → (result ≡ got v)
        × ((cached_generate m text later c').2 ≡ got v)
        × ((cached_generate m text later c').0 ≡ m)
  unfolding cached_generate remember to_store known
  cached_generate_repeat n text now later c {m} {c'} {v} {result} valid some_room miss made ran =
      let (d, stored, valid', (again, _)) =
        put-IsValid md5 text (some v) now later c valid some_room in
      let same : d ≡ c' = ground (arith, miss, made, stored, ran) in
      let hit : (get md5 text later c').1 ≡ some (some v) =
        subst (λ x. (get md5 text later x).1 ≡ some (some v)) same again in
      (ground (arith, miss, made, stored, ran), ground (arith, hit), ground (arith, hit))
