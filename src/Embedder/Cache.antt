-- ===== src/Embedder/Cache.antt =====
-- `EmbeddingCache` of ingestion/embedder.py.
use agentic_rag_backend.Base.{
  ℕ, ◌≤◌, ◌<◌, ◌≡◌, refl, sym, ap, ◌∙◌, Option, none, some, List, [], ◌∷◌, ltb, leb, leb→le,
  if◌then◌else◌, if_elim, arith, length, inl, inr, Bool-cases,
}
use agentic_rag_backend.Base.Dict
use agentic_rag_backend.Base.Dict.{
  get-put, keys, length-keys, length-put, length-remove, keys-put, keys-remove, get-keys,
  keys-put_there,
}
use agentic_rag_backend.Base.Text.{Text, text_eq, text_eq_refl}

-- The two dictionaries. Times are numbers that grow.
pub record EmbeddingCache {ℓ} (V : Type ℓ) : Type ℓ where
  pub cache : List (Text × V)
  pub access_times : List (Text × ℕ)
  pub max_size : ℕ

-- `min(keys, key=...)`: the first key with the least time.
unfoldable pub oldest_from : Text → ℕ → List (Text × ℕ) → Text
oldest_from k t [] = k
oldest_from k t ((j, s) ∷ rest) =
    let older = oldest_from j s rest in
    let newer = oldest_from k t rest in if ltb s t then older else newer

module _ {ℓ} {V : Type ℓ} (md5 : Text → Text) where
  -- `get`; a hit renews the access time.
  unfoldable pub get : Text → ℕ → EmbeddingCache V → EmbeddingCache V × Option V
  get text now c = elim (Dict.get (md5 text) c.cache) [
    | none ↦ (c, none)
    | some v ↦ (record c { access_times = Dict.put (md5 text) now c.access_times }, some v)
  ]

  -- `del self.cache[key]; del self.access_times[key]`; `none` is a KeyError.
  unfoldable pub evict : Text → EmbeddingCache V → Option (EmbeddingCache V)
  evict key c = elim (Dict.get key c.cache) [
    | none ↦ none
    | some v ↦ elim (Dict.get key c.access_times) [
      | none ↦ none
      | some t ↦ some (record c {
        cache = Dict.remove key c.cache;
        access_times = Dict.remove key c.access_times;
      })
    ]
  ]

  -- The eviction of `put`, of the entries of `access_times`; `min` of nothing is an exception.
  unfoldable pub evict_oldest : List (Text × ℕ) → EmbeddingCache V → Option (EmbeddingCache V)
  evict_oldest [] c = none
  evict_oldest ((k, t) ∷ rest) c = evict (oldest_from k t rest) c

  unfoldable pub make_room : EmbeddingCache V → Option (EmbeddingCache V)
  make_room c = if leb c.max_size (length c.cache) then evict_oldest c.access_times c else some c

  -- `put`
  unfoldable pub put : Text → V → ℕ → EmbeddingCache V → Option (EmbeddingCache V)
  put text embedding now c = elim (make_room c) [
    | none ↦ none
    | some d ↦ some (record d {
      cache = Dict.put (md5 text) embedding d.cache;
      access_times = Dict.put (md5 text) now d.access_times;
    })
  ]

there_cons :
    (o k : Text) (t : ℕ) (m : List (Text × ℕ)) {x : ℕ}
    → Dict.get o m ≡ some x
    → (y : ℕ) × (Dict.get o ((k, t) ∷ m) ≡ some y)
unfolding Dict.get
there_cons o k t m {x} h = elim (Bool-cases (text_eq k o)) [
  | inl here ↦ (t, ground arith)
  | inr later ↦ (x, ground arith)
]

there_insert :
    (o k j : Text) (t s : ℕ) (m : List (Text × ℕ)) {x : ℕ}
    → Dict.get o ((k, t) ∷ m) ≡ some x
    → (y : ℕ) × (Dict.get o ((k, t) ∷ (j, s) ∷ m) ≡ some y)
unfolding Dict.get
there_insert o k j t s m {x} h = elim (Bool-cases (text_eq k o)) [
  | inl here ↦ (t, ground arith)
  | inr later ↦ let (y, at) = there_cons o j s m {x = x} (ground arith) in (y, ground (arith, at))
]

there_here : (k : Text) (t : ℕ) → Dict.get k ((k, t) ∷ []) ≡ some t
unfolding Dict.get
there_here k t = ground (arith, text_eq_refl k)

-- The oldest key is one of the keys.
oldest_from-there :
    (k : Text) (t : ℕ) (rest : List (Text × ℕ))
    → (x : ℕ) × (Dict.get (oldest_from k t rest) ((k, t) ∷ rest) ≡ some x)
unfolding oldest_from
oldest_from-there k t [] = (t, there_here k t)
oldest_from-there k t ((j, s) ∷ rest) =
    let P = λ (o : Text). (x : ℕ) × (Dict.get o ((k, t) ∷ (j, s) ∷ rest) ≡ some x) in
    if_elim P (ltb s t)
      (λ _. let (x, at) = oldest_from-there j s rest in there_cons _ k t ((j, s) ∷ rest) {x = x} at)
      (λ _. let (x, at) = oldest_from-there k t rest in there_insert _ k j t s rest {x = x} at)

module _ {ℓ} {V : Type ℓ} (md5 : Text → Text) where
  -- The two dictionaries have the same keys, and no more than `max_size` of them.
  pub record IsValid (c : EmbeddingCache V) : Type ℓ where
    pub same_keys : keys c.cache ≡ keys c.access_times
    pub bounded : length c.cache ≤ c.max_size

  -- Room was made: the keys agree, and there is a place.
  HasRoom : EmbeddingCache V → Type 0
  HasRoom d = (keys d.cache ≡ keys d.access_times) × (length d.cache < d.max_size)

  evict_oldest-HasRoom :
      (c : EmbeddingCache V) (times : List (Text × ℕ))
      → c.access_times ≡ times
      → IsValid c
      → 0 < length c.cache
      → (d : EmbeddingCache V) × (evict_oldest md5 times c ≡ some d)
        × HasRoom d
        × (d.max_size ≡ c.max_size)
  unfolding evict_oldest evict HasRoom
  evict_oldest-HasRoom c [] e valid used =
      let sizes : length c.cache ≡ length c.access_times =
        sym (length-keys c.cache) ∙ ap length valid.same_keys ∙ length-keys c.access_times in
      let none_left : length c.access_times ≡ 0 = ap length e in
      absurd (omega (arith, sizes, none_left, used))
  evict_oldest-HasRoom c ((k, t) ∷ rest) e valid used =
      let o = oldest_from k t rest in
      let (x, there) = rw (sym e) at (oldest_from-there k t rest) in
      let (v, stored) = get-keys o c.cache c.access_times {w = x} valid.same_keys there in
      (
        record c { cache = Dict.remove o c.cache; access_times = Dict.remove o c.access_times },
        ground (arith, stored, there),
        (
          keys-remove o c.cache c.access_times valid.same_keys,
          omega (arith, length-remove o c.cache {v = v} stored, valid.bounded),
        ),
        refl,
      )

  make_room-HasRoom :
      (c : EmbeddingCache V)
      → IsValid c
      → 0 < c.max_size
      → (d : EmbeddingCache V) × (make_room md5 c ≡ some d) × HasRoom d × (d.max_size ≡ c.max_size)
  unfolding make_room HasRoom
  make_room-HasRoom c valid some_room =
      let P = λ (o : Option (EmbeddingCache V)).
        (d : EmbeddingCache V) × (o ≡ some d) × HasRoom d × (d.max_size ≡ c.max_size) in
      if_elim P (leb c.max_size (length c.cache))
        (λ full.
          let le = leb→le c.max_size (length c.cache) full in
          evict_oldest-HasRoom c c.access_times refl valid (omega arith))
        (λ free. (c, refl, (valid.same_keys, ground arith), refl))

  get-IsValid :
      (text : Text) (now : ℕ) (c : EmbeddingCache V) {v : V}
      → Dict.get (md5 text) c.cache ≡ some v
      → IsValid c
      → ((get md5 text now c).1 ≡ some v) × IsValid (get md5 text now c).0
  unfolding get
  get-IsValid text now c {v} stored valid =
      let (t, there) =
        get-keys (md5 text) c.access_times c.cache {w = v} (sym valid.same_keys) stored in
      (
        ground (arith, stored),
        rw (stored, get)
            (record {
              same_keys =
                  valid.same_keys
                  ∙ sym (keys-put_there (md5 text) now c.access_times {v = t} there);
              bounded = valid.bounded;
            }),
      )

  -- With a `max_size` that is not 0, `put` on a valid cache raises nothing, the new cache is
  -- valid, and a `get` of the text then returns the embedding and leaves the cache valid.
  pub put-IsValid :
      (text : Text) (v : V) (now later : ℕ) (c : EmbeddingCache V)
      → IsValid c
      → 0 < c.max_size
      → (c' : EmbeddingCache V) × (put md5 text v now c ≡ some c')
        × IsValid c'
        × (((get md5 text later c').1 ≡ some v) × IsValid (get md5 text later c').0)
  unfolding put get HasRoom
  put-IsValid text v now later c valid some_room =
      let (d, made, (same, room), size) = make_room-HasRoom c valid some_room in
      let i = md5 text in
      let c' : EmbeddingCache V = record d {
        cache = Dict.put i v d.cache;
        access_times = Dict.put i now d.access_times;
      } in
      let stored : Dict.get i c'.cache ≡ some v =
        ground (arith, get-put i i v d.cache, text_eq_refl i) in
      let valid' : IsValid c' = record {
        same_keys = keys-put i v now d.cache d.access_times same;
        bounded = omega (arith, length-put i v d.cache, room);
      } in
      (c', ground (arith, made), valid', get-IsValid text later c' {v = v} stored valid')
