-- ===== src/Turn/Kept.antt =====
-- The steps of a turn that leave the session memory as it is, and the one that adds the turn.
use agentic_rag_backend.Base.{
  ℕ, ◌≡◌, refl, subst, ◌∙◌, inl, inr, Bool, false, ◌&&◌, not, Option, some, [], ◌++◌, if◌then◌else◌,
  if_elim, arith, Option-cases,
}
use agentic_rag_backend.Base.Dict
use agentic_rag_backend.Base.Dict.{get-put}
use agentic_rag_backend.Base.Text.{Text, Unicode, strip, is_empty, text_eq, text_eq_iff}
use agentic_rag_backend.Redis.{Redis, RedisLaws}
use agentic_rag_backend.Memory.{
  Json, Histories, memory, client, key, get_history, register, State, get_or_create, add_turn,
  get_messages, get_context_string,
}
use agentic_rag_backend.Memory.Window.{
  History, push_turn, Holds, client-online, client-local, add_turn_refines,
}
use agentic_rag_backend.Caches.{Outside, CacheSettings, hashed_key, store, set_answer}
use agentic_rag_backend.Turn.{CachedAnswer}

get_history-register :
    (i j : Text) (hs : Histories) → get_history j (register i hs) ≡ get_history j hs
unfolding get_history register
get_history-register i j hs = elim (Option-cases (Dict.get i hs)) [
  | inl e ↦ ground (arith, e, get-put i j [] hs, text_eq_iff i j)
  | inr (msgs, e) ↦ ground (arith, e)
]

pub get_or_create-id :
    (r : Redis) (json : Json) (reachable : Bool) (fresh requested : Text) (s : State r json)
    → (get_or_create r json reachable fresh (some requested) s).1
      ≡ (if is_empty requested then fresh else requested)
unfolding get_or_create
get_or_create-id r json reachable fresh requested s =
    if_elim (λ (x : State r json × Text). x.1 ≡ (if is_empty requested then fresh else requested))
      (client reachable s.manager).1 (λ _. refl) (λ _. refl)

module _ (r : Redis) (json : Json) (laws : RedisLaws r) where
  -- The memory `f` under a window and a key prefix.
  pub record Kept (w : ℕ) (p : Text) (f : History) (s : State r json) : Type 0 where
    pub holds : Holds r json s f
    pub window : s.manager.window_size ≡ w
    pub prefix : s.manager.prefix ≡ p

  registered : (i : Text) (s : State r json) → State r json
  registered i s = record s {
    manager = record s.manager { histories = register i s.manager.histories };
  }

  Kept-registered :
      (i : Text) {w : ℕ} {p : Text} {f : History} (s : State r json)
      → s.manager.backend ≡ memory
      → Kept w p f s
      → Kept w p f (registered i s)
  unfolding registered
  Kept-registered i {f = f} s local k = record {
    holds = record {
      settled = inl local;
      lives = λ e. absurd (cc);
      in_process = λ _ j. get_history-register i j s.manager.histories ∙ k.holds.in_process local j;
      on_server = λ e. absurd (cc);
    };
    window = k.window;
    prefix = k.prefix;
  }

  pub Kept-get_or_create :
      (reachable : Bool) (fresh requested : Text) {w : ℕ} {p : Text} {f : History}
      (s : State r json)
      → Kept w p f s
      → Kept w p f (get_or_create r json reachable fresh (some requested) s).0
  unfolding get_or_create registered
  Kept-get_or_create reachable fresh requested s k = elim k.holds.settled [
    | inl local ↦ rw (client-local reachable s.manager local) (Kept-registered _ s local k)
    | inr (remote, checked, connected) ↦
        rw (client-online reachable s.manager remote checked connected) k
  ]

  pub Kept-get_context_string :
      (reachable : Bool) (session_id : Text) {w : ℕ} {p : Text} {f : History} (s : State r json)
      {s' : State r json} {context : Text}
      → Kept w p f s
      → get_context_string r json reachable session_id s ≡ some (s', context)
      → Kept w p f s'
  unfolding get_context_string get_messages registered
  Kept-get_context_string reachable session_id {w} {p} {f} s {s'} k ran = elim k.holds.settled [
    | inl local ↦
        let offline = rw (client-local reachable s.manager local) at ran in
        let same : registered session_id s ≡ s' = cc in
        subst (Kept w p f) same (Kept-registered session_id s local k)
    | inr (remote, checked, connected) ↦
        let online = rw (client-online reachable s.manager remote checked connected) at ran in
        elim (Option-cases (r.lrange (key s.manager session_id) s.db)) [
          | inl e ↦ absurd (ground (arith, e))
          | inr (items, e) ↦
              let done = rw e at online in let same : s ≡ s' = cc in subst (Kept w p f) same k
        ]
  ]

  pub Kept-add_turn :
      (roundtrip : (role content : Text)
        → json.loads (json.dumps role content) ≡ some (some role, some content))
      (reachable : Bool) (session_id message reply : Text) {w : ℕ} {p : Text} {f : History}
      (s : State r json) {s' : State r json}
      → Kept w p f s
      → add_turn r json reachable session_id message reply s ≡ some s'
      → Holds r json s' (push_turn w session_id message reply f)
  Kept-add_turn roundtrip reachable session_id message reply {f = f} s {s'} k ran =
      rw k.window at
        (add_turn_refines r json laws roundtrip reachable session_id message reply s f k.holds ran)

  module _ (u : Unicode) (o : Outside CachedAnswer) (k : CacheSettings) where
    Kept-store :
        (raw : Text) (a : CachedAnswer) {w : ℕ} {p : Text} {f : History} (s : State r json)
        → ((j : Text) → text_eq (k.prefix ++ o.sha256 raw) (p ++ j) ≡ false)
        → Kept w p f s
        → Kept w p f (record s { db = store u r o k raw a s.db })
    unfolding store hashed_key key
    Kept-store raw a {w} {p} {f} s apart kept =
        elim (Option-cases (r.setex (k.prefix ++ o.sha256 raw) k.ttl (o.dumps a) s.db)) [
          | inl e ↦ rw (e, store) kept
          | inr (d, e) ↦
              rw (e, store)
                (record {
                  holds = record {
                    settled = kept.holds.settled;
                    lives = kept.holds.lives;
                    in_process = kept.holds.in_process;
                    on_server = λ remote j.
                        elim (laws.list_at-setex _ _ _ s.db e (s.manager.prefix ++ j)) [
                          | inl clash ↦ absurd (ground (arith, apart j, kept.prefix))
                          | inr same ↦ same ∙ kept.holds.on_server remote j
                        ];
                  };
                  window = kept.window;
                  prefix = kept.prefix;
                })
        ]

    pub Kept-set_answer :
        (online : Bool) (query : Text) (user : Option Text) (has_answer : Bool) (a : CachedAnswer)
        {w : ℕ} {p : Text} {f : History} (s : State r json)
        → ((raw j : Text) → text_eq (k.prefix ++ o.sha256 raw) (p ++ j) ≡ false)
        → Kept w p f s
        → Kept w p f (record s { db = set_answer u r o k online query user has_answer a s.db })
    unfolding set_answer
    Kept-set_answer online query user has_answer a {w} {p} {f} s apart kept =
        if_elim (λ d. Kept w p f (record s { db = d }))
          (k.enabled && has_answer && not (is_empty (strip u query)) && online)
          (λ _. Kept-store _ a s (apart _) kept) (λ _. kept)
