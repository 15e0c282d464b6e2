-- ===== src/Turn/Recorded.antt =====
-- Whatever happens in a turn, the session memory gains exactly the message and the reply.
use mathlib.Core.Option
use agentic_rag_backend.Base.{
  ℕ, ◌≡◌, refl, subst, sym, ◌∙◌, ap, inl, inr, Bool, false, not, Option, none, some, [], ◌++◌,
  if◌then◌else◌, if_elim, Option-cases, Bool-cases, Option-map-eq-some,
}
use agentic_rag_backend.Base.Text.{Text, Unicode, is_empty, text_eq}
use agentic_rag_backend.Redis.{Redis, RedisLaws}
use agentic_rag_backend.Memory.{
  Json, memory, register, State, get_or_create, get_messages, add_turn, get_context_string,
}
use agentic_rag_backend.Memory.Window.{History, push_turn, Holds, client-local, add_turn-local}
use agentic_rag_backend.Caches.{Outside, get_answer}
use agentic_rag_backend.Guardrails.Input.{check_input}
use agentic_rag_backend.Rewriter.{condense}
use agentic_rag_backend.Guardrails.Output.{apply_output_guardrails}
use agentic_rag_backend.Retrieval.{Floats}
use agentic_rag_backend.Turn.{
  Deps, AgentRun, CachedAnswer, Services, reply_with, settle, finish, attempt, record_only,
  run_agent_turn, gates, response_of, prompt, text_or_empty, no_deps, or_else, error_response,
}
use agentic_rag_backend.Turn.Kept.{
  Kept, get_or_create-id, Kept-get_or_create, Kept-get_context_string, Kept-add_turn,
  Kept-set_answer,
}

module _ (fl : Floats) (u : Unicode) (v : Services fl) (r : Redis) (json : Json)
    (o : Outside CachedAnswer) (reachable online : Bool) (fresh : Text) (laws : RedisLaws r)
    (roundtrip : (role content : Text)
      → json.loads (json.dumps role content) ≡ some (some role, some content)) where
  -- The turn's reply is what the memory gained.
  abbrev Gained : ℕ → Text → Text → History → State r json × Text × Deps fl → Type 0
  Gained w session_id message f (s', reply, deps) =
      Holds r json s' (push_turn w session_id message reply f)

  -- A part of the `try` has gained the turn, or has raised and left the memory as it was.
  Ended : ℕ → Text → Text → Text → History → State r json × Option (Text × Deps fl) → Type 0
  Ended w p session_id message f (s', some (reply, deps)) =
      Gained w session_id message f (s', reply, deps)
  Ended w p session_id message f (s', none) = Kept r json laws w p f s'

  module _ {w : ℕ} {p : Text} {f : History} (message session_id : Text) where
    Gained-map :
        (reply : Text) (deps : Deps fl) (s : State r json) {out : State r json × Text × Deps fl}
        → Kept r json laws w p f s
        → Option.map
            (λ s'. (s', reply, deps))
            (add_turn r json reachable session_id message reply s)
          ≡ some out
        → Gained w session_id message f out
    Gained-map reply deps s {out} kept ran =
        let (s', added, same) = Option-map-eq-some (λ s'. (s', reply, deps)) _ ran in
        subst (Gained w session_id message f) (sym same)
          (Kept-add_turn r json laws roundtrip reachable session_id message reply s kept added)

    Ended-reply_with :
        (reply : Text) (deps : Deps fl) (s : State r json)
        → Kept r json laws w p f s
        → Ended w p session_id message f
            (reply_with fl u v r json o reachable online fresh message session_id reply deps s)
    unfolding reply_with Ended
    Ended-reply_with reply deps s kept =
        let out =
          reply_with fl u v r json o reachable online fresh message session_id reply deps s in
        let P = Ended w p session_id message f in
        elim (Option-cases (add_turn r json reachable session_id message reply s)) [
          | inl failed ↦
              let raised : out ≡ (s, none) = rw (failed, reply_with) refl in
              subst P (sym raised) kept
          | inr (s', added) ↦
              let done : out ≡ (s', some (reply, deps)) = rw (added, reply_with) refl in
              subst P (sym done) (
                Kept-add_turn r json laws roundtrip reachable session_id message reply s kept added)
        ]

    module _
        (apart : (raw j : Text) → text_eq (v.caching.prefix ++ o.sha256 raw) (p ++ j) ≡ false) where
      Ended-finish :
          (user_id : Option Text) (query : Text) (run : AgentRun fl) (s : State r json)
          → Kept r json laws w p f s
          → Ended w p session_id message f
              (finish fl u v r json o reachable online fresh message session_id user_id query run s)
      unfolding finish
      Ended-finish user_id query run s kept =
          let gated = gates fl u v (response_of fl u v run) run.deps in
          let response = apply_output_guardrails u v.tunables v.transliterate gated.0 in
          let answer : CachedAnswer = record { answer = some response; tools = [] } in
          let stored =
            Kept-set_answer r json laws u o v.caching online query user_id (not (is_empty response))
              answer s apart kept in
          Ended-reply_with response run.deps _ (
            if_elim (λ d. Kept r json laws w p f (record s { db = d })) gated.1 (λ _. stored)
              (λ _. kept))

      Ended-attempt :
          (user_id : Option Text) (safe_message : Text) (s : State r json)
          → Kept r json laws w p f s
          → Ended w p session_id message f (
              attempt fl u v r json o reachable online fresh message session_id user_id safe_message
                s)
      unfolding attempt Ended
      Ended-attempt user_id safe_message s kept =
          elim (Option-cases (get_context_string r json reachable session_id s)) [
            | inl e ↦ rw (e, attempt) kept
            | inr ((s₁, history), e) ↦
                let kept₁ = Kept-get_context_string r json laws reachable session_id s kept e in
                let query = condense u v.rewriting v.rewrite history safe_message in
                elim (Option-cases (get_answer u r o v.caching online query user_id s₁.db)) [
                  | inr (cached, hit) ↦
                      rw (e, attempt, hit)
                        (Ended-reply_with (text_or_empty cached.answer) (no_deps fl) s₁ kept₁)
                  | inl miss ↦ elim (Option-cases (v.agent (prompt fl u v history query))) [
                    | inl stopped ↦ rw (e, attempt, miss, stopped) kept₁
                    | inr (run, done) ↦
                        rw (e, attempt, miss, done) (Ended-finish user_id query run s₁ kept₁)
                  ]
                ]
          ]

  Gained-settle :
      (w : ℕ) (p : Text) (f : History) (message session_id : Text)
      (tried : State r json × Option (Text × Deps fl)) {out : State r json × Text × Deps fl}
      → Ended w p session_id message f tried
      → settle fl u v r json o reachable online fresh message session_id tried ≡ some out
      → Gained w session_id message f out
  unfolding settle record_only Ended
  Gained-settle w p f message session_id (s', some (reply, deps)) {out} ended ran =
      let same : (s', reply, deps) ≡ out = cc in subst (Gained w session_id message f) same ended
  Gained-settle w p f message session_id (s', none) ended ran =
      Gained-map message session_id error_response (no_deps fl) s' ended ran

  -- A turn that returns, on whichever path (blocked, cached, answered or failed), leaves the
  -- session memory with exactly the message and the returned reply as one more turn of the
  -- session, and no other session changes. The memory is settled on a backend at the start, the
  -- server keeps its laws, messages read back, and no key of the answer cache is a key of a
  -- session.
  pub run_agent_turn-Gained :
      (message requested : Text) (user_id : Option Text) (s : State r json) (f : History)
      {out : State r json × Text × Deps fl}
      → ((raw j : Text)
          → text_eq (v.caching.prefix ++ o.sha256 raw) (s.manager.prefix ++ j) ≡ false)
      → Holds r json s f
      → run_agent_turn fl u v r json o reachable online fresh message requested user_id s ≡ some out
      → Holds r json out.0 (
          push_turn s.manager.window_size
            (if is_empty requested then fresh else requested)
            message
            out.1
            f)
  unfolding run_agent_turn record_only
  run_agent_turn-Gained message requested user_id s f {out} apart holds ran =
      let start : Kept r json laws s.manager.window_size s.manager.prefix f s = record {
        holds = holds;
        window = refl;
        prefix = refl;
      } in
      let made = get_or_create r json reachable fresh (some requested) s in
      let kept = Kept-get_or_create r json laws reachable fresh requested s start in
      let target = λ (i : Text). Gained s.manager.window_size i message f out in
      let verdict = check_input u v.tunables message in
      let safe = or_else verdict.sanitized_input message in
      subst target (get_or_create-id r json reachable fresh requested s)
        (elim (Bool-cases verdict.allowed) [
          | inr refused ↦
              Gained-map message made.1 _ (no_deps fl) made.0 kept
                (rw (refused, run_agent_turn) at ran)
          | inl allowed ↦
              Gained-settle s.manager.window_size s.manager.prefix f message made.1 _
                (Ended-attempt message made.1 apart user_id safe made.0 kept)
                (rw (allowed, run_agent_turn) at ran)
        ])

  record_only_returns :
      (message session_id reply : Text) (s : State r json)
      → s.manager.backend ≡ memory
      → (out : State r json × Text × Deps fl) × (record_only fl u v r json o reachable online fresh
            message session_id reply s
          ≡ some out)
  unfolding record_only
  record_only_returns message session_id reply s local = (
    _,
    ap (Option.map (λ s'. (s', reply, no_deps fl)))
        (add_turn-local r json laws roundtrip reachable session_id message reply s local),
  )

  get_or_create-local :
      (requested : Text) (s : State r json)
      → s.manager.backend ≡ memory
      → (get_or_create r json reachable fresh (some requested) s).0.manager.backend ≡ memory
  unfolding get_or_create
  get_or_create-local requested s local = rw (client-local reachable s.manager local) local

  reply_with-local :
      (message session_id reply : Text) (deps : Deps fl) (s : State r json)
      → s.manager.backend ≡ memory
      → (reply_with fl u v r json o reachable online fresh message session_id reply deps
          s).0.manager.backend
        ≡ memory
  unfolding reply_with
  reply_with-local message session_id reply deps s local =
      rw
        (
          add_turn-local r json laws roundtrip reachable session_id message reply s local,
          reply_with,
        )
        local

  get_context_string-local :
      (session_id : Text) (s : State r json) {s' : State r json} {context : Text}
      → s.manager.backend ≡ memory
      → get_context_string r json reachable session_id s ≡ some (s', context)
      → s'.manager.backend ≡ memory
  unfolding get_context_string get_messages
  get_context_string-local session_id s {s'} local ran =
      let offline = rw (client-local reachable s.manager local) at ran in
      let registered : State r json = record s {
        manager = record s.manager { histories = register session_id s.manager.histories };
      } in
      let same : registered ≡ s' = cc in ap (λ x. x.manager.backend) (sym same) ∙ local

  -- The `try` stays in the process.
  attempt-local :
      (message session_id : Text) (user_id : Option Text) (safe_message : Text) (s : State r json)
      → s.manager.backend ≡ memory
      → (attempt fl u v r json o reachable online fresh message session_id user_id safe_message
          s).0.manager.backend
        ≡ memory
  unfolding attempt finish
  attempt-local message session_id user_id safe_message s local =
      elim (Option-cases (get_context_string r json reachable session_id s)) [
        | inl e ↦ rw (e, attempt) local
        | inr ((s₁, history), e) ↦
            let still = get_context_string-local session_id s local e in
            let query = condense u v.rewriting v.rewrite history safe_message in
            elim (Option-cases (get_answer u r o v.caching online query user_id s₁.db)) [
              | inr (cached, hit) ↦
                  rw (e, attempt, hit) (reply_with-local message session_id _ (no_deps fl) s₁ still)
              | inl miss ↦ elim (Option-cases (v.agent (prompt fl u v history query))) [
                | inl stopped ↦ rw (e, attempt, miss, stopped) still
                | inr (run, done) ↦
                    rw (e, attempt, miss, done)
                      (reply_with-local message session_id _ run.deps _ still)
              ]
            ]
      ]

  settle_returns :
      (message session_id : Text) (tried : State r json × Option (Text × Deps fl))
      → tried.0.manager.backend ≡ memory
      → (out : State r json × Text × Deps fl) × (settle fl u v r json o reachable online fresh
            message session_id tried
          ≡ some out)
  unfolding settle
  settle_returns message session_id (s, some (reply, deps)) local = ((s, reply, deps), refl)
  settle_returns message session_id (s, none) local =
      record_only_returns message session_id error_response s local

  -- With sessions kept in the process, every turn returns: an error of the agent or of a model
  -- becomes a reply.
  pub run_agent_turn_returns :
      (message requested : Text) (user_id : Option Text) (s : State r json)
      → s.manager.backend ≡ memory
      → (out : State r json × Text × Deps fl) × (run_agent_turn fl u v r json o reachable online
            fresh message requested user_id s
          ≡ some out)
  unfolding run_agent_turn
  run_agent_turn_returns message requested user_id s local =
      let made = get_or_create r json reachable fresh (some requested) s in
      let verdict = check_input u v.tunables message in
      let P = λ (x : Option (State r json × Text × Deps fl)).
        (out : State r json × Text × Deps fl) × (x ≡ some out) in
      let still = get_or_create-local requested s local in
      let safe = or_else verdict.sanitized_input message in
      if_elim P (not verdict.allowed) (λ _. record_only_returns message made.1 _ made.0 still)
        (λ _.
          settle_returns message made.1 _ (attempt-local message made.1 user_id safe made.0 still))
