-- ===== src/Memory/Window.antt =====
-- Both backends keep, for each session, the last turns that fit the window.
use agentic_rag_backend.Base.{
  ℕ, ◌-◌, ◌*◌, ◌≤◌, ◌≡◌, refl, sym, ap, subst, ◌∙◌, ◌⊎◌, inl, inr, Bool, true, false, some, List,
  [], ◌∷◌, ◌++◌, map, arith, ltb, ◌==◌, not_ltb→le, if◌then◌else◌, if_elim, length, length-map,
  map-drop, map-append, drop, append_assoc, Bool-cases, Option-map-eq-some,
}
use agentic_rag_backend.Base.Dict
use agentic_rag_backend.Base.Dict.{get-put, get-remove}
use agentic_rag_backend.Base.Text.{Text, codes, text_eq, text_eq_iff}
use agentic_rag_backend.Redis.{Redis, RedisLaws, last_n, after_command}
use agentic_rag_backend.Memory.{
  Message, human, ai, Json, write_message, read_message, is_user, content_of, redis, memory,
  Manager, Histories, client, key, get_history, trim_memory, State, turn_commands, add_turn, decode,
}

-- The abstract memory: the messages of each session, oldest first.
abbrev pub History : Type 0
History = Text → List Message

abbrev pub turn : Text → Text → List Message
turn user_message ai_message = human user_message ∷ ai ai_message ∷ []

-- One more turn of one session: the last `window` turns stay, and all of them where `window` is 0.
-- Other sessions are as they were.
abbrev pub push_turn : ℕ → Text → Text → Text → History → History
push_turn window session_id user_message ai_message f j =
    if text_eq session_id j then last_n (window * 2) (f j ++ turn user_message ai_message) else f j

trim-last_n : (w : ℕ) (msgs : List Message) → trim_memory w msgs ≡ last_n (w * 2) msgs
unfolding trim_memory last_n
trim-last_n w msgs = elim (Bool-cases (ltb (w * 2) (length msgs))) [
  | inl long ↦ ground arith
  | inr short ↦
      let z : length msgs - w * 2 ≡ 0 = omega (arith, not_ltb→le _ _ short) in
      ground (arith, ap (λ k. drop k msgs) z)
]

map-last_n {ℓ κ} :
    {A : Type ℓ} {B : Type κ} (f : A → B) (n : ℕ) (xs : List A)
    → map f (last_n n xs) ≡ last_n n (map f xs)
unfolding last_n
map-last_n f n xs =
    if_elim (λ r. map f (last_n n xs) ≡ r) (n == 0) (λ z. ground (arith, z))
      (λ z. rw (z, length-map f xs) (ground (arith, z, map-drop f (length xs - n) xs)))

prefix-eq : (p s t : Text) → text_eq (p ++ s) (p ++ t) ≡ text_eq s t
prefix-eq [] s t = refl
prefix-eq (c ∷ p) s t = ground (arith, prefix-eq p s t)

pub client-online :
    (reachable : Bool) (m : Manager)
    → m.backend ≡ redis
    → m.redis_checked ≡ true
    → m.connected ≡ true
    → client reachable m ≡ (m, true)
unfolding client
client-online reachable m remote checked connected = ground arith

pub client-local :
    (reachable : Bool) (m : Manager) → m.backend ≡ memory → client reachable m ≡ (m, false)
unfolding client
client-local reachable m local = ground arith

module _ (r : Redis) (json : Json) where
  -- The state holds the abstract memory `f`: the backend is settled, and each session's messages
  -- are those of `f`, in the process or encoded on the server, where the keys have a time to live
  -- that is not 0.
  pub record Holds (s : State r json) (f : History) : Type 0 where
    pub settled :
        (s.manager.backend ≡ memory)
        ⊎ ((s.manager.backend ≡ redis)
            × (s.manager.redis_checked ≡ true)
            × (s.manager.connected ≡ true))
    pub lives : s.manager.backend ≡ redis → 1 ≤ s.manager.ttl
    pub in_process :
        s.manager.backend ≡ memory → (j : Text) → get_history j s.manager.histories ≡ f j
    pub on_server :
        s.manager.backend ≡ redis
        → (j : Text) → r.list_at (key s.manager j) s.db ≡ map (write_message json) (f j)

  module _ (laws : RedisLaws r)
      (roundtrip : (role content : Text)
        → json.loads (json.dumps role content) ≡ some (some role, some content)) where
    read_message-write_message : (m : Message) → read_message json (write_message json m) ≡ some m
    unfolding read_message write_message is_user content_of
    read_message-write_message (human t) = rw (roundtrip (codes "user") t, read_message) refl
    read_message-write_message (ai t) = rw (roundtrip (codes "assistant") t, read_message) refl

    pub decode-write_message :
        (msgs : List Message) → decode r json (map (write_message json) msgs) ≡ msgs
    unfolding decode
    decode-write_message [] = refl
    decode-write_message (m ∷ ms) =
        ground (arith, read_message-write_message m, decode-write_message ms)

    list_at-turn :
        (m : Manager) (session_id user_message ai_message : Text) (d : r.Db) {d' : r.Db}
        → 1 ≤ m.ttl
        → r.pipeline (turn_commands r json m session_id user_message ai_message) d ≡ some d'
        → (j : Text) (msgs : List Message) → r.list_at (key m j) d ≡ map (write_message json) msgs
        → r.list_at (key m j) d'
          ≡ map (write_message json) (
              if text_eq session_id j
              then last_n (m.window_size * 2) (msgs ++ turn user_message ai_message)
              else msgs)
    unfolding turn_commands after_command key
    list_at-turn m session_id user_message ai_message d lives sent j msgs stored =
        let items = r.list_at (m.prefix ++ j) d in
        let first = write_message json (human user_message) in
        let second = write_message json (ai ai_message) in
        laws.list_at-pipeline _ d sent (m.prefix ++ j)
        ∙ ground (
          arith,
          prefix-eq m.prefix session_id j,
          stored,
          map-last_n (write_message json) (m.window_size * 2)
              (msgs ++ turn user_message ai_message),
          map-append (write_message json) msgs (turn user_message ai_message),
          append_assoc items (first ∷ []) (second ∷ []),
        )

    module _ (reachable : Bool) (session_id user_message ai_message : Text) where
      abbrev pub local_manager : Manager → Manager
      local_manager m = record m {
        histories =
            Dict.put session_id
              (trim_memory m.window_size
                (get_history session_id m.histories ++ turn user_message ai_message))
              m.histories;
      }

      pub add_turn-local :
          (s : State r json)
          → s.manager.backend ≡ memory
          → add_turn r json reachable session_id user_message ai_message s
            ≡ some (record s { manager = local_manager s.manager })
      unfolding add_turn client
      add_turn-local s local = ground arith

      pub add_turn-remote :
          (s : State r json) {s' : State r json}
          → s.manager.backend ≡ redis
          → s.manager.redis_checked ≡ true
          → s.manager.connected ≡ true
          → add_turn r json reachable session_id user_message ai_message s ≡ some s'
          → (d : r.Db) × (r.pipeline
                (turn_commands r json s.manager session_id user_message ai_message)
                s.db
              ≡ some d)
            × (s' ≡ record s { db = d })
      unfolding add_turn
      add_turn-remote s remote checked connected ran =
          Option-map-eq-some (λ d. record s { db = d }) _
            (rw (client-online reachable s.manager remote checked connected) at ran)

      get_history-put :
          (j : Text) (msgs : List Message) (hs : Histories)
          → get_history j (Dict.put session_id msgs hs)
            ≡ (if text_eq session_id j then msgs else get_history j hs)
      unfolding get_history
      get_history-put j msgs hs = ground (arith, get-put session_id j msgs hs)

      -- `add_turn` on either backend, where the server keeps its laws, messages read back, and
      -- the call does not fail: if the memory held `f`, with keys on the server that do not expire at
      -- once, it then holds `f` with the turn pushed: the session has its last `window_size` turns
      -- (all of them where `window_size` is 0), every other session is unchanged.
      pub add_turn_refines :
          (s : State r json) (f : History) {s' : State r json}
          → Holds s f
          → add_turn r json reachable session_id user_message ai_message s ≡ some s'
          → Holds s' (push_turn s.manager.window_size session_id user_message ai_message f)
      add_turn_refines s f {s'} h ran = elim h.settled [
        | inl local ↦
            let t : State r json = record s { manager = local_manager s.manager } in
            let held : Holds t
                (push_turn s.manager.window_size session_id user_message ai_message f) =
              record {
                settled = inl local;
                lives = λ e. absurd (ground arith);
                in_process = λ _ j. ground (
                  arith,
                  get_history-put j
                      (trim_memory s.manager.window_size (
                        get_history session_id s.manager.histories ++ turn user_message ai_message))
                      s.manager.histories,
                  trim-last_n s.manager.window_size
                      (get_history session_id s.manager.histories ++ turn user_message ai_message),
                  h.in_process local session_id,
                  h.in_process local j,
                  text_eq_iff session_id j,
                );
                on_server = λ e. absurd (ground arith);
              } in
            let same : t ≡ s' = cc (add_turn-local s local) in
            subst
              (λ x. Holds x (push_turn s.manager.window_size session_id user_message ai_message f))
              same held
        | inr (remote, checked, connected) ↦
            let (d, sent, same) = add_turn-remote s remote checked connected ran in
            let t : State r json = record s { db = d } in
            let held : Holds t
                (push_turn s.manager.window_size session_id user_message ai_message f) =
              record {
                settled = inr (remote, checked, connected);
                lives = h.lives;
                in_process = λ e. absurd (ground arith);
                on_server = λ _ j.
                    list_at-turn s.manager session_id user_message ai_message s.db (h.lives remote)
                      sent j (f j) (h.on_server remote j);
              } in
            subst
              (λ x. Holds x (push_turn s.manager.window_size session_id user_message ai_message f))
              (sym same) held
      ]
