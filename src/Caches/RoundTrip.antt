-- ===== src/Caches/RoundTrip.antt =====
-- What a cache can return: only what was stored for the same scope and the same normalized query.
use agentic_rag_backend.Base.{
  ◌≡◌, subst, ◌⊎◌, inl, inr, Bool, false, Option, none, some, [], ◌∷◌, ◌++◌, arith, if◌then◌else◌,
  Option-cases, Bool-cases,
}
use agentic_rag_backend.Base.Text.{Text, Unicode, is_empty, text_eq, text_eq_sound}
use agentic_rag_backend.Redis.{Redis, RedisLaws}
use agentic_rag_backend.Caches.{
  normalize, scope, Outside, CacheSettings, raw_answer_key, version, hashed_key, fetch, store,
  get_answer, set_answer,
}
use agentic_rag_backend.Caches.Keys.{raw_answer_key_injective}

append-cancel : (p s t : Text) → p ++ s ≡ p ++ t → s ≡ t
append-cancel [] s t e = e
append-cancel (c ∷ p) s t e = append-cancel p s t (cc)

module _ {ℓ} {A : Type ℓ} (u : Unicode) (r : Redis) (o : Outside A) (k : CacheSettings) where
  -- What the server holds for a raw key, decoded.
  unfoldable pub cached : Text → r.Db → Option A
  cached raw d = elim (r.value_at (hashed_key u r o k raw) d) [
    | none ↦ none
    | some text ↦ (if is_empty text then none else o.loads text)
  ]

  module _ (laws : RedisLaws r) where
    pub fetch-cached :
        (raw : Text) (d : r.Db) {w : A} → fetch u r o k raw d ≡ some w → cached raw d ≡ some w
    unfolding fetch cached
    fetch-cached raw d {w} h = elim (Option-cases (r.get (hashed_key u r o k raw) d)) [
      | inl failed ↦ absurd (ground arith)
      | inr (v, got) ↦ ground (arith, laws.get_lem (hashed_key u r o k raw) d {v = v} got)
    ]

    -- A stored value shows up only under a raw key with the same hash.
    pub cached-store :
        (raw raw' : Text) (v : A) (d : r.Db) {w : A}
        → (o.sha256 raw ≡ o.sha256 raw' → raw ≡ raw')
        → o.loads (o.dumps v) ≡ some v
        → cached raw' (store u r o k raw v d) ≡ some w
        → ((raw ≡ raw') × (w ≡ v)) ⊎ (cached raw' d ≡ some w)
    unfolding cached store hashed_key
    cached-store raw raw' v d {w} no_collision roundtrip h =
        let key = k.prefix ++ o.sha256 raw in
        let key' = k.prefix ++ o.sha256 raw' in
        elim (Option-cases (r.setex key k.ttl (o.dumps v) d)) [
          | inl failed ↦ inr (ground arith)
          | inr (d', done) ↦
              let after = laws.value_at-setex key k.ttl (o.dumps v) d {d' = d'} done key' in
              elim (Bool-cases (text_eq key key')) [
                | inr other ↦ inr (ground arith)
                | inl same ↦
                    let hashes = append-cancel k.prefix _ _ (text_eq_sound key key' same) in
                    inl (no_collision hashes, ground arith)
              ]
        ]

module _ {ℓ} {A : Type ℓ} (u : Unicode) (r : Redis) (o : Outside A) (k : CacheSettings)
    (online : Bool) where
  -- The raw key of a request at the server's version.
  abbrev pub answer_key_at : Text → Option Text → r.Db → Text
  answer_key_at query user d = raw_answer_key u query user (version u r o k online d)

  set_answer_cases :
      (q : Text) (user : Option Text) (has_answer : Bool) (v : A) (d : r.Db) {d' : r.Db}
      → set_answer u r o k online q user has_answer v d ≡ d'
      → (d' ≡ d) ⊎ (d' ≡ store u r o k (answer_key_at q user d) v d)
  unfolding set_answer
  set_answer_cases q user has_answer v d h = ground arith

  module _ (laws : RedisLaws r) (not_word : u.is_word b'|' ≡ false)
      (not_space : u.is_space b'|' ≡ false) where
    get_answer-cached :
        (query : Text) (user : Option Text) (d : r.Db) {w : A}
        → get_answer u r o k online query user d ≡ some w
        → cached u r o k (answer_key_at query user d) d ≡ some w
    unfolding get_answer
    get_answer-cached query user d h = fetch-cached u r o k laws _ d (ground arith)

    -- On a server that keeps its laws: an answer that is read after another was stored is that
    -- very answer, and then the two requests have one scope and one normalized query, or it was
    -- readable under its key before. This needs a hash that does not collide on the two keys,
    -- JSON that reads back, and a bar that is neither a word character nor white space.
    pub get_answer-set_answer :
        (q q' : Text) (user user' : Option Text) (has_answer : Bool) (v : A) (d d' : r.Db) {w : A}
        → (o.sha256 (answer_key_at q user d) ≡ o.sha256 (answer_key_at q' user' d')
            → answer_key_at q user d ≡ answer_key_at q' user' d')
        → o.loads (o.dumps v) ≡ some v
        → set_answer u r o k online q user has_answer v d ≡ d'
        → get_answer u r o k online q' user' d' ≡ some w
        → ((scope user ≡ scope user') × (normalize u q ≡ normalize u q') × (w ≡ v))
          ⊎ (cached u r o k (answer_key_at q' user' d') d ≡ some w)
    get_answer-set_answer q q' user user' has_answer v d d' {w} no_collision roundtrip wrote read =
        let there = get_answer-cached q' user' d' read in
        let raw' = answer_key_at q' user' d' in
        elim (set_answer_cases q user has_answer v d wrote) [
          | inl same ↦ inr (subst (λ x. cached u r o k raw' x ≡ some w) same there)
          | inr stored ↦
              elim (cached-store u r o k laws (answer_key_at q user d) raw' v d {w = w} no_collision
                roundtrip (subst (λ x. cached u r o k raw' x ≡ some w) stored there)) [
                  | inr before ↦ inr before
                  | inl (keys, value) ↦
                      let (_, scopes, queries) =
                        raw_answer_key_injective u not_word not_space q q' user user' _ _ keys in
                      inl (scopes, queries, value)
                ]
        ]
