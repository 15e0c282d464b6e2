-- ===== src/Caches.antt =====
-- agent/query_cache.py and agent/answer_cache.py: the two Redis caches and their shared version.
pub mod Keys
pub mod RoundTrip
use mathlib.Core.Option
use agentic_rag_backend.Base.{
  ℕ, Bool, true, false, ◌&&◌, ◌||◌, not, Option, none, some, List, [], ◌∷◌, ◌++◌, map,
  if◌then◌else◌,
}
use agentic_rag_backend.Base.Decimal.{show}
use agentic_rag_backend.Base.Text.{Text, Unicode, codes, strip, lower, is_empty}
use agentic_rag_backend.Redis.{Redis}

module _ (u : Unicode) where
  -- `_PUNCT_RE.sub(" ", low)`
  unfoldable pub blank_punctuation : Text → Text
  blank_punctuation = map (λ c. if u.is_word c || u.is_space c then c else b' ')

  -- `_WS_RE.sub(" ", low)`; the flag says that a blank has just been written.
  unfoldable pub collapse : Bool → Text → Text
  collapse blank [] = []
  collapse blank (c ∷ t) =
      let skip = collapse true t in
      let space = b' ' ∷ collapse true t in
      let keep = c ∷ collapse false t in
      if u.is_space c then (if blank then skip else space) else keep

  -- `_normalize`, which `normalize_query` passes on
  unfoldable pub normalize : Text → Text
  normalize query = strip u (collapse false (blank_punctuation (lower u (strip u query))))

-- `_scope`: `user_id or "public"`
unfoldable pub scope : Option Text → Text
scope none = codes "public"
scope (some user_id) = if is_empty user_id then codes "public" else user_id

-- What the caches take from outside: the hash, JSON, and the reading of the version counter.
pub record Outside {ℓ} (A : Type ℓ) : Type ℓ where
  pub sha256 : Text → Text
  pub dumps : A → Text
  pub loads : Text → Option A
  pub int : Text → Option ℕ

-- The environment of a cache.
pub record CacheSettings : Type 0 where
  pub enabled : Bool
  pub ttl : ℕ
  pub prefix : Text
  pub version_prefix : Text

-- The text that is hashed into a key of the query cache and of the answer cache.
unfoldable pub raw_query_key : Unicode → Text → Option Text → ℕ → ℕ → Text
raw_query_key u query user_id limit version =
    codes "v"
    ++ (show version
        ++ (codes "|"
            ++ (scope user_id ++ (codes "|" ++ (show limit ++ (codes "|" ++ normalize u query))))))

unfoldable pub raw_answer_key : Unicode → Text → Option Text → ℕ → Text
raw_answer_key u query user_id version =
    codes "v"
    ++ (show version ++ (codes "|" ++ (scope user_id ++ (codes "|" ++ normalize u query))))

module _ {ℓ} {A : Type ℓ} (u : Unicode) (r : Redis) (o : Outside A) (k : CacheSettings) where
  version_key : Text
  version_key = k.version_prefix ++ codes "ver"

  -- `_version()`: 0 without a client, without a value, and on any error.
  unfoldable pub version : Bool → r.Db → ℕ
  unfolding version_key
  version online d =
      if online
      then elim (r.get version_key d) [
        | none ↦ 0
        | some none ↦ 0
        | some (some raw) ↦ elim (o.int raw) [ none ↦ 0 | some n ↦ n ]
      ]
      else 0

  -- `_key` of either cache
  unfoldable pub hashed_key : Text → Text
  hashed_key raw = k.prefix ++ o.sha256 raw

  -- The value read back, where it is there and can be decoded.
  unfoldable pub fetch : Text → r.Db → Option A
  unfolding hashed_key
  fetch raw d = elim (r.get (hashed_key raw) d) [
    | none ↦ none
    | some none ↦ none
    | some (some text) ↦ (if is_empty text then none else o.loads text)
  ]

  -- `setex`; an error leaves the server as it was.
  unfoldable pub store : Text → A → r.Db → r.Db
  unfolding hashed_key
  store raw value d = elim (r.setex (hashed_key raw) k.ttl (o.dumps value) d) [
    | none ↦ d
    | some d' ↦ d'
  ]

  -- `query_cache.bump_version`
  unfoldable pub bump_version : Bool → r.Db → r.Db
  unfolding version_key
  bump_version online d =
      if online then elim (r.incr version_key d) [ none ↦ d | some d' ↦ d' ] else d

  -- `answer_cache.get` and `answer_cache.set`. The value is the answer with the tools.
  unfoldable pub get_answer : Bool → Text → Option Text → r.Db → Option A
  get_answer online query user_id d =
      if k.enabled && not (is_empty (strip u query)) && online
      then fetch (raw_answer_key u query user_id (version online d)) d
      else none

  unfoldable pub set_answer : Bool → Text → Option Text → Bool → A → r.Db → r.Db
  set_answer online query user_id has_answer value d =
      if k.enabled && has_answer && not (is_empty (strip u query)) && online
      then store (raw_answer_key u query user_id (version online d)) value d
      else d

-- `query_cache.get` and `query_cache.set`. The value is the list of reranked chunks.
module _ {ℓ} {C : Type ℓ} (u : Unicode) (r : Redis) (o : Outside (List C)) (k : CacheSettings) where
  unfoldable pub get_query : Bool → Text → Option Text → ℕ → r.Db → Option (List C)
  get_query online query user_id limit d =
      if k.enabled && online
      then fetch u r o k (raw_query_key u query user_id limit (version u r o k online d)) d
      else none

  unfoldable pub set_query : Bool → Text → Option Text → ℕ → List C → r.Db → r.Db
  set_query online query user_id limit [] d = d
  set_query online query user_id limit (c ∷ cs) d =
      if k.enabled && online
      then store u r o k (raw_query_key u query user_id limit (version u r o k online d)) (c ∷ cs) d
      else d
