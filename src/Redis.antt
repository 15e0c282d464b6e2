-- ===== src/Redis.antt =====
-- The Redis server, as the program uses it (agent/session_memory.py, agent/query_cache.py,
-- agent/answer_cache.py). The server is not part of the repository: it is a parameter, with the
-- documented effect of each command on the data that a client can read back.
use agentic_rag_backend.Base.{
  ℕ, ◌-◌, ◌≡◌, ◌⊎◌, true, ◌&&◌, Option, some, List, [], ◌∷◌, ◌++◌, length, drop, ◌==◌,
  if◌then◌else◌,
}
use agentic_rag_backend.Base.Text.{Text, text_eq}

-- `xs[-n:]`: the last `n` items, and all of them where `n` is 0.
unfoldable pub last_n {ℓ} : {A : Type ℓ} → ℕ → List A → List A
last_n n xs = if n == 0 then xs else drop (length xs - n) xs

-- The commands that are sent in one pipeline. `ltrim key n` is `LTRIM key -n -1`.
pub data Command : Type 0 where
  rpush : Text → Text → Command
  ltrim : Text → ℕ → Command
  expire : Text → ℕ → Command

-- The documented effect of a command on the list at a key. A time to live of 0 deletes the key.
unfoldable pub after_command : Command → Text → List Text → List Text
after_command (rpush k v) key items = if text_eq k key then items ++ v ∷ [] else items
after_command (ltrim k n) key items = if text_eq k key then last_n n items else items
after_command (expire k ttl) key items = if text_eq k key && ttl == 0 then [] else items

abbrev pub after_commands : List Command → Text → List Text → List Text
after_commands [] key items = items
after_commands (c ∷ cs) key items = after_commands cs key (after_command c key items)

-- The data as a client sees it, and the commands: `none` if the connection fails. No time passes
-- within a command, so no key expires in one.
pub record Redis : Type 1 where
  pub Db : Type 0
  pub list_at : Text → Db → List Text
  pub value_at : Text → Db → Option Text
  pub pipeline : List Command → Db → Option Db
  pub lrange : Text → Db → Option (List Text)
  pub del : Text → Db → Option Db
  pub get : Text → Db → Option (Option Text)
  pub setex : Text → ℕ → Text → Db → Option Db
  pub incr : Text → Db → Option Db

-- What the documentation says of the commands that succeed.
pub record RedisLaws (r : Redis) : Type 0 where
  pub list_at-pipeline :
      (cs : List Command) (d : r.Db) {d' : r.Db}
      → r.pipeline cs d ≡ some d'
      → (key : Text) → r.list_at key d' ≡ after_commands cs key (r.list_at key d)
  pub lrange_lem :
      (key : Text) (d : r.Db) {items : List Text}
      → r.lrange key d ≡ some items
      → items ≡ r.list_at key d
  pub list_at-del :
      (k : Text) (d : r.Db) {d' : r.Db}
      → r.del k d ≡ some d'
      → (key : Text) → r.list_at key d' ≡ (if text_eq k key then [] else r.list_at key d)
  pub get_lem :
      (key : Text) (d : r.Db) {v : Option Text} → r.get key d ≡ some v → v ≡ r.value_at key d
  pub value_at-setex :
      (k : Text) (ttl : ℕ) (v : Text) (d : r.Db) {d' : r.Db}
      → r.setex k ttl v d ≡ some d'
      → (key : Text) → r.value_at key d' ≡ (if text_eq k key then some v else r.value_at key d)
  pub value_at-incr :
      (k : Text) (d : r.Db) {d' : r.Db}
      → r.incr k d ≡ some d'
      → (key : Text) → (text_eq k key ≡ true) ⊎ (r.value_at key d' ≡ r.value_at key d)
  pub list_at-setex :
      (k : Text) (ttl : ℕ) (v : Text) (d : r.Db) {d' : r.Db}
      → r.setex k ttl v d ≡ some d'
      → (key : Text) → (text_eq k key ≡ true) ⊎ (r.list_at key d' ≡ r.list_at key d)
