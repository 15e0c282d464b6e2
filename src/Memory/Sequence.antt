-- ===== src/Memory/Sequence.antt =====
-- A whole conversation: after any turns of a session, its messages are the last that fit the window.
use agentic_rag_backend.Base.{
  ℕ, ◌+◌, ◌-◌, ◌*◌, ◌≤◌, ◌≡◌, ◌⊎◌, refl, sym, ap, subst, ◌∙◌, inl, inr, Bool, Option, none, some,
  List, [], ◌∷◌, ◌++◌, arith, ◌==◌, if_elim, drop-nil, Option-cases, length, length-append,
  length-drop, drop, drop-drop, drop-append, append_assoc, append-nil, Option-map-eq-some,
  Bool-cases,
}
use agentic_rag_backend.Base.Text.{Text, text_eq_refl}
use agentic_rag_backend.Redis.{Redis, RedisLaws, last_n}
use agentic_rag_backend.Memory.{Message, Json, State, add_turn, decode, get_messages}
use agentic_rag_backend.Memory.Window.{
  History, turn, push_turn, Holds, decode-write_message, client-online, client-local,
  add_turn-local, add_turn-remote, add_turn_refines,
}

last_n-append {ℓ} :
    {A : Type ℓ} (n : ℕ) (xs ys : List A) → last_n n (last_n n xs ++ ys) ≡ last_n n (xs ++ ys)
unfolding last_n
last_n-append n xs ys = elim (Bool-cases (n == 0)) [
  | inl z ↦ ground (arith, z)
  | inr pos ↦
      let k = length xs - n in
      let flat : drop k xs ++ ys ≡ drop k (xs ++ ys) = sym (drop-append k xs ys (omega arith)) in
      let len = length-append xs ys in
      let size = length-drop k (xs ++ ys) in
      let sum : k + (length (xs ++ ys) - k - n) ≡ length (xs ++ ys) - n = omega (arith, len) in
      rw (pos, flat, size, drop-drop, sum)
]

last_n-nil {ℓ} : {A : Type ℓ} (n : ℕ) → last_n {A = A} n [] ≡ []
unfolding last_n
last_n-nil n = if_elim (λ r. r ≡ []) (n == 0) (λ _. refl) (λ _. drop-nil (0 - n) [] refl)

abbrev pub Turns : Type 0
Turns = List (Text × Text)

abbrev pub all_turns : Turns → List Message
all_turns [] = []
all_turns ((user_message, ai_message) ∷ ts) = turn user_message ai_message ++ all_turns ts

module _ (r : Redis) (json : Json) (reachable : Bool) (session_id : Text) where
  -- Calls of `add_turn`, one after the other.
  unfoldable pub add_turns : Turns → State r json → Option (State r json)
  add_turns [] s = some s
  add_turns ((user_message, ai_message) ∷ ts) s =
      elim (add_turn r json reachable session_id user_message ai_message s) [
        | none ↦ none
        | some s' ↦ add_turns ts s'
      ]

  module _ (laws : RedisLaws r)
      (roundtrip : (role content : Text)
        → json.loads (json.dumps role content) ≡ some (some role, some content)) where
    -- `get_messages` returns what the memory holds.
    get_messages-Holds :
        (s : State r json) (f : History) {s' : State r json} {msgs : List Message}
        → Holds r json s f
        → get_messages r json reachable session_id s ≡ some (s', msgs)
        → msgs ≡ f session_id
    unfolding get_messages
    get_messages-Holds s f {s'} {msgs} h ran = elim h.settled [
      | inl local ↦
          let offline = rw (client-local reachable s.manager local) at ran in
          let held = h.in_process local session_id in cc
      | inr (remote, checked, connected) ↦
          let online = rw (client-online reachable s.manager remote checked connected) at ran in
          let (items, got, same) =
            Option-map-eq-some (λ items. (record s { manager = s.manager }, decode r json items)) _
              online in
          let stored = laws.lrange_lem _ s.db got ∙ h.on_server remote session_id in
          ap (λ p. p.1) same
          ∙ ap (decode r json) stored
          ∙ decode-write_message r json laws roundtrip (f session_id)
    ]

    window-add_turn :
        (user_message ai_message : Text) (s : State r json) (f : History) {s' : State r json}
        → Holds r json s f
        → add_turn r json reachable session_id user_message ai_message s ≡ some s'
        → s'.manager.window_size ≡ s.manager.window_size
    window-add_turn user_message ai_message s f {s'} h ran = elim h.settled [
      | inl local ↦ cc (
          add_turn-local r json laws roundtrip reachable session_id user_message ai_message s local)
      | inr (remote, checked, connected) ↦
          let (d, sent, same) =
            add_turn-remote r json laws roundtrip reachable session_id user_message ai_message s
              remote checked connected ran in
          ap (λ x. x.manager.window_size) same
    ]

    add_turns-Holds :
        (ts : Turns) (w : ℕ) (s : State r json) (f : History) (g : List Message) {s' : State r json}
        → s.manager.window_size ≡ w
        → Holds r json s f
        → f session_id ≡ last_n (w * 2) g
        → add_turns ts s ≡ some s'
        → (f' : History) × Holds r json s' f' × (f' session_id ≡ last_n (w * 2) (g ++ all_turns ts))
    unfolding add_turns
    add_turns-Holds [] w s f g size h now ran =
        (f, subst (λ x. Holds r json x f) (cc) h, now ∙ ap (last_n (w * 2)) (sym (append-nil g)))
    add_turns-Holds ((user_message, ai_message) ∷ ts) w s f g {s'} size h now ran =
        elim (Option-cases (add_turn r json reachable session_id user_message ai_message s)) [
          | inl failed ↦ absurd (ground arith)
          | inr (s₁, first) ↦
              let t = turn user_message ai_message in
              let f₁ = push_turn w session_id user_message ai_message f in
              let h₁ : Holds r json s₁ f₁ = rw size at (
                add_turn_refines r json laws roundtrip reachable session_id user_message ai_message
                  s f h first) in
              let now₁ : f₁ session_id ≡ last_n (w * 2) (g ++ t) =
                rw (text_eq_refl session_id, now) (last_n-append (w * 2) g t) in
              let (f', h', then') =
                add_turns-Holds ts w s₁ f₁ (g ++ t)
                  (window-add_turn user_message ai_message s f h first ∙ size) h₁ now₁
                  (ground arith) in
              (f', h', then' ∙ ap (last_n (w * 2)) (append_assoc g t (all_turns ts)))
        ]

    get_messages-last_n :
        (ts : Turns) (s : State r json) (f : History) {s' s'' : State r json} {msgs : List Message}
        → Holds r json s f
        → f session_id ≡ []
        → add_turns ts s ≡ some s'
        → get_messages r json reachable session_id s' ≡ some (s'', msgs)
        → msgs ≡ last_n (s.manager.window_size * 2) (all_turns ts)
    get_messages-last_n ts s f {s'} {s''} h fresh ran got =
        let w = s.manager.window_size in
        let start : f session_id ≡ last_n (w * 2) [] = fresh ∙ sym (last_n-nil (w * 2)) in
        let (f', h', final) = add_turns-Holds ts w s f [] refl h start ran in
        get_messages-Holds s' f' {s' = s''} h' got ∙ final

    -- After any turns of a session that was empty, by either backend and with no failed call,
    -- `get_messages` returns the whole conversation where `window_size` is 0, and otherwise exactly
    -- its last `2 * window_size` messages, oldest first. The server keeps its laws, its keys do not
    -- expire at once, and messages read back.
    pub get_messages-add_turns :
        (ts : Turns) (s : State r json) (f : History) {s' s'' : State r json} {msgs : List Message}
        → Holds r json s f
        → f session_id ≡ []
        → add_turns ts s ≡ some s'
        → get_messages r json reachable session_id s' ≡ some (s'', msgs)
        → ((s.manager.window_size ≡ 0) × (msgs ≡ all_turns ts))
          ⊎ ((1 ≤ s.manager.window_size)
              × (msgs ≡ drop (length (all_turns ts) - s.manager.window_size * 2) (all_turns ts)))
    unfolding last_n
    get_messages-add_turns ts s f {s'} {s''} h fresh ran got =
        let kept = get_messages-last_n ts s f {s' = s'} {s'' = s''} h fresh ran got in
        elim (Bool-cases (s.manager.window_size * 2 == 0)) [
          | inl z ↦ inl (ground arith, rw z at kept)
          | inr nonzero ↦ inr (ground arith, rw nonzero at kept)
        ]
