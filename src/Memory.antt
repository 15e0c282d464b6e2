-- ===== src/Memory.antt =====
-- agent/session_memory.py: the sliding window of a session's turns, in Redis or in the process.
pub mod Window
pub mod Sequence
use agentic_rag_backend.Base.{
  ℕ, zero, suc, ◌+◌, ◌*◌, ◌/◌, ◌≡◌, Bool, true, false, Option, none, some, List, [], ◌∷◌, ◌++◌, map,
  ltb, if◌then◌else◌, length,
}
use agentic_rag_backend.Base.Dict
use mathlib.Core.Option
use agentic_rag_backend.Base.Text.{Text, codes, is_empty, text_eq, text_eq, join}
use agentic_rag_backend.Redis.{Redis, Command, rpush, ltrim, expire, last_n}

-- LangChain's `HumanMessage` and `AIMessage`.
pub data Message : Type 0 where
  human ai : Text → Message

-- `json.dumps({"role": role, "content": content})`, and `json.loads` with the two `obj.get` calls;
-- `none` if the item is no JSON.
pub record Json : Type 0 where
  pub dumps : Text → Text → Text
  pub loads : Text → Option (Option Text × Option Text)

-- What `add_turn` writes of a message.
unfoldable pub write_message : Json → Message → Text
write_message json (human t) = json.dumps (codes "user") t
write_message json (ai t) = json.dumps (codes "assistant") t

unfoldable pub is_user : Option Text → Bool
is_user none = false
is_user (some role) = text_eq role (codes "user")

unfoldable pub content_of : Option Text → Text
content_of none = []
content_of (some t) = t

-- What `get_messages` reads of an item: any role but `user` is the assistant's.
unfoldable pub read_message : Json → Text → Option Message
unfolding is_user content_of
read_message json item = elim (json.loads item) [
  | none ↦ none
  | some (role, content) ↦
      some (if is_user role then human (content_of content) else ai (content_of content))
]

abbrev pub Histories : Type 0
Histories = List (Text × List Message)

pub data Backend : Type 0 where
  redis memory : Backend

-- `SessionMemoryManager`. `connected` says whether `_redis` holds a client.
pub record Manager : Type 0 where
  pub window_size : ℕ
  pub ttl : ℕ
  pub prefix : Text
  pub backend : Backend
  pub redis_checked : Bool
  pub connected : Bool
  pub histories : Histories

-- `_client()`: whether the first use found Redis (`reachable` is the outcome of the ping), the
-- manager behind it, and whether there is a client.
unfoldable pub client : Bool → Manager → Manager × Bool
client reachable m = elim m.backend [
  | memory ↦ (m, false)
  | redis ↦
      (if m.redis_checked
        then (m, m.connected)
        else if reachable
        then (record m { redis_checked = true; connected = true }, true)
        else (record m { redis_checked = true; connected = false; backend = memory }, false))
]

-- `_key`
unfoldable pub key : Manager → Text → Text
key m session_id = m.prefix ++ session_id

-- The messages of a session; an unknown session starts empty.
unfoldable pub get_history : Text → Histories → List Message
get_history session_id hs = elim (Dict.get session_id hs) [ none ↦ [] | some msgs ↦ msgs ]

-- `setdefault` with an empty history, as in `create_session` and `_get_history`.
unfoldable pub register : Text → Histories → Histories
register session_id hs = elim (Dict.get session_id hs) [
  | none ↦ Dict.put session_id [] hs
  | some _ ↦ hs
]

-- `_trim_memory`
unfoldable pub trim_memory : ℕ → List Message → List Message
trim_memory window msgs =
    let max_msgs = window * 2 in if ltb max_msgs (length msgs) then last_n max_msgs msgs else msgs

module _ (r : Redis) (json : Json) where
  -- The manager beside the server's data: what a method reads and changes.
  pub record State : Type 0 where
    pub manager : Manager
    pub db : r.Db

  -- `create_session` and `get_or_create`; `fresh` is the UUID that is minted where it is needed.
  unfoldable pub get_or_create : Bool → Text → Option Text → State → State × Text
  get_or_create reachable fresh session_id s =
      let sid : Text = elim session_id [
        | none ↦ fresh
        | some i ↦ (if is_empty i then fresh else i)
      ] in
      let (m, online) = client reachable s.manager in
      if online
      then (record s { manager = m }, sid)
      else (record s { manager = record m { histories = register sid m.histories } }, sid)

  -- The pipeline of `add_turn`.
  unfoldable pub turn_commands : Manager → Text → Text → Text → List Command
  turn_commands m session_id user_message ai_message =
      let k = key m session_id in
      rpush k (write_message json (human user_message))
      ∷ rpush k (write_message json (ai ai_message))
      ∷ ltrim k (m.window_size * 2)
      ∷ expire k m.ttl
      ∷ []

  -- `add_turn`; `none` if the server fails.
  unfoldable pub add_turn : Bool → Text → Text → Text → State → Option State
  add_turn reachable session_id user_message ai_message s =
      let (m, online) = client reachable s.manager in
      let turn = human user_message ∷ ai ai_message ∷ [] in
      let trimmed = trim_memory m.window_size (get_history session_id m.histories ++ turn) in
      if online
      then Option.map (λ d. record s { manager = m; db = d })
          (r.pipeline (turn_commands m session_id user_message ai_message) s.db)
      else some
          (record s { manager = record m { histories = Dict.put session_id trimmed m.histories } })

  -- Items that are no JSON objects are passed over.
  unfoldable pub decode : List Text → List Message
  decode [] = []
  decode (item ∷ items) =
      let rest = decode items in elim (read_message json item) [ none ↦ rest | some m ↦ m ∷ rest ]

  -- `get_messages`
  unfoldable pub get_messages : Bool → Text → State → Option (State × List Message)
  get_messages reachable session_id s =
      let (m, online) = client reachable s.manager in
      if online
      then Option.map (λ items. (record s { manager = m }, decode items))
          (r.lrange (key m session_id) s.db)
      else some (
        record s { manager = record m { histories = register session_id m.histories } },
        get_history session_id m.histories,
      )

  -- `session_exists` of the in-process backend; with Redis it is the key's existence.
  unfoldable pub session_exists : Bool → (Text → Bool) → Text → State → Bool
  session_exists reachable redis_exists session_id s =
      let (m, online) = client reachable s.manager in
      if online
      then redis_exists (key m session_id)
      else elim (Dict.get session_id m.histories) [ none ↦ false | some _ ↦ true ]

  -- `clear_session`
  unfoldable pub clear_session : Bool → Text → State → Option State
  clear_session reachable session_id s =
      let (m, online) = client reachable s.manager in
      if online
      then Option.map (λ d. record s { manager = m; db = d }) (r.del (key m session_id) s.db)
      else some (record s { manager = record m { histories = Dict.remove session_id m.histories } })

  line_of : Message → Text
  line_of (human t) = codes "User: " ++ t
  line_of (ai t) = codes "Assistant: " ++ t

  -- `get_context_string`
  unfoldable pub get_context_string : Bool → Text → State → Option (State × Text)
  unfolding line_of
  get_context_string reachable session_id s =
      Option.map (λ (s', msgs). (s', join (10 ∷ []) (map line_of msgs)))
        (get_messages reachable session_id s)

  -- `session_info`: the turns, the messages and the window.
  unfoldable pub session_info : Bool → Text → State → Option (ℕ × ℕ × ℕ)
  session_info reachable session_id s =
      Option.map (λ (s', msgs). (length msgs / 2, length msgs, s.manager.window_size))
        (get_messages reachable session_id s)
