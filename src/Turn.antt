-- ===== src/Turn.antt =====
-- agent/conversation.py: one guarded turn, from the user's message to the reply in the session memory.
pub mod Gates
pub mod Kept
pub mod Recorded
use agentic_rag_backend.Base.{
  ℕ, Bool, true, false, ◌&&◌, ◌||◌, not, Option, none, some, List, [], ◌∷◌, ◌++◌, map,
  if◌then◌else◌, length,
}
use mathlib.Core.Option
use agentic_rag_backend.Base.Text.{Text, Unicode, codes, is_empty, text_eq}
use agentic_rag_backend.Redis.{Redis}
use agentic_rag_backend.Memory.{Json, State, get_or_create, add_turn, get_context_string}
use agentic_rag_backend.Caches.{Outside, CacheSettings, get_answer, set_answer}
use agentic_rag_backend.Citations.{
  abstain_message, Reason, exempt_non_answer, cited_ok, fabricated, uncited_substantive_answer,
}
use agentic_rag_backend.Citations
use agentic_rag_backend.Groundedness.{Settings, Judge, is_cacheable, is_ok}
use agentic_rag_backend.Groundedness
use agentic_rag_backend.Guardrails.Input.{Tunables, GuardrailResult, check_input}
use agentic_rag_backend.Guardrails.Output.{apply_output_guardrails}
use agentic_rag_backend.Retrieval.{Floats, ChunkResult, is_low_confidence}
use agentic_rag_backend.Rewriter.{RewriteSettings, Rewrite, condense}

-- The part of `AgentDependencies` that the turn reads.
pub record Deps (fl : Floats) : Type 0 where
  pub retrieved_chunks : List (ChunkResult fl)
  pub selected_retrieval_tool : Option Text

abbrev pub no_deps : (fl : Floats) → Deps fl
no_deps fl = record { retrieved_chunks = []; selected_retrieval_tool = none }

-- A finished run of the agent: the two attributes that can hold its text, and its dependencies.
pub record AgentRun (fl : Floats) : Type 0 where
  pub output : Option Text
  pub legacy_data : Option Text
  pub deps : Deps fl

-- A cached answer: a JSON object that is not empty.
pub record CachedAnswer : Type 0 where
  pub answer : Option Text
  pub tools : List Text

-- `a or b`
unfoldable pub or_else : Option Text → Text → Text
or_else none other = other
or_else (some t) other = if is_empty t then other else t

unfoldable pub text_or_empty : Option Text → Text
text_or_empty none = []
text_or_empty (some t) = t

abbrev pub error_response : Text
error_response = codes "Sorry — there was a problem processing your message. Please try again."

-- The settings of the parts, and the services that the turn calls: the models, each `none` where
-- its call raises.
pub record Services (fl : Floats) : Type 0 where
  pub tunables : Tunables
  pub grounding : Settings
  pub rewriting : RewriteSettings
  pub caching : CacheSettings
  pub min_similarity : fl.Float
  pub show_index : ℕ → Text
  pub judge : Judge
  pub rewrite : Rewrite
  pub transliterate : Text → Option Text
  pub agent : Text → Option (AgentRun fl)

module _ (fl : Floats) (u : Unicode) (v : Services fl) where
  unfoldable pub is_hybrid : Option Text → Bool
  is_hybrid none = false
  is_hybrid (some tool) = text_eq tool (codes "hybrid_search")

  -- The anti-hallucination gate: the response after it, and whether it may be cached.
  unfoldable pub gates : Text → Deps fl → Text × Bool
  gates response deps =
      let chunks = deps.retrieved_chunks in
      let cited = Citations.enforce u response (length chunks) in
      let grounded =
        Groundedness.enforce u v.grounding v.show_index v.judge cited.0
          (map (λ c. c.content) chunks) in
      if is_hybrid deps.selected_retrieval_tool
      then (if is_low_confidence fl v.min_similarity chunks
          then (abstain_message, false)
          else if is_ok cited.1
          then (grounded.0, is_cacheable grounded.1)
          else (cited.0, false))
      else (response, false)

  -- `result.output or result.data`; `legacy_data` is the latter
  unfoldable pub response_of : AgentRun fl → Text
  response_of run = or_else run.output (text_or_empty run.legacy_data)

  unfoldable pub prompt : Text → Text → Text
  prompt history search_query =
      if is_empty history
      then search_query
      else codes "Previous conversation:"
        ++ ((10 ∷ history) ++ ((10 ∷ 10 ∷ codes "Current question: ") ++ search_query))

  module _ (r : Redis) (json : Json) (o : Outside CachedAnswer) (reachable online : Bool)
      (fresh : Text) where
    -- The state behind a part of the `try`, and the answer; `none` where the part raises, with the
    -- state that it has left.
    abbrev pub Tried : Type 0
    Tried = State r json × Option (Text × Deps fl)

    -- Recording the turn and returning the reply.
    unfoldable pub reply_with : Text → Text → Text → Deps fl → State r json → Tried
    reply_with message session_id reply deps s =
        elim (add_turn r json reachable session_id message reply s) [
          | none ↦ (s, none)
          | some s' ↦ (s', some (reply, deps))
        ]

    -- The end of a turn after the agent's run: the gates, the output filters, the cache, the memory.
    unfoldable pub finish : Text → Text → Option Text → Text → AgentRun fl → State r json → Tried
    finish message session_id user_id search_query run s =
        let gated = gates (response_of run) run.deps in
        let response = apply_output_guardrails u v.tunables v.transliterate gated.0 in
        let answer : CachedAnswer = record { answer = some response; tools = [] } in
        let d =
          if gated.1
          then set_answer u r o v.caching online search_query user_id (not (is_empty response))
              answer s.db
          else s.db in
        reply_with message session_id response run.deps (record s { db = d })

    -- The body of the `try`.
    unfoldable pub attempt : Text → Text → Option Text → Text → State r json → Tried
    attempt message session_id user_id safe_message s =
        elim (get_context_string r json reachable session_id s) [
          | none ↦ (s, none)
          | some (s₁, history) ↦
              let search_query = condense u v.rewriting v.rewrite history safe_message in
              elim (get_answer u r o v.caching online search_query user_id s₁.db) [
                | some cached ↦
                    reply_with message session_id (text_or_empty cached.answer) (no_deps fl) s₁
                | none ↦ elim (v.agent (prompt history search_query)) [
                  | none ↦ (s₁, none)
                  | some run ↦ finish message session_id user_id search_query run s₁
                ]
              ]
        ]

    -- A turn that ends without running the agent to its end: the reply is recorded.
    unfoldable pub record_only :
        Text → Text → Text → State r json → Option (State r json × Text × Deps fl)
    record_only message session_id reply s =
        Option.map (λ s'. (s', reply, no_deps fl))
          (add_turn r json reachable session_id message reply s)

    -- The result of the `try`, or the `except`.
    unfoldable pub settle : Text → Text → Tried → Option (State r json × Text × Deps fl)
    settle message session_id (s, some (reply, deps)) = some (s, reply, deps)
    settle message session_id (s, none) = record_only message session_id error_response s

    -- `run_agent_turn`; `none` where an exception leaves it, which only the memory can cause.
    unfoldable pub run_agent_turn :
        Text → Text → Option Text → State r json → Option (State r json × Text × Deps fl)
    run_agent_turn message requested user_id s₀ =
        let created = get_or_create r json reachable fresh (some requested) s₀ in
        let s = created.0 in
        let session_id = created.1 in
        let verdict = check_input u v.tunables message in
        let blocked = or_else verdict.user_message (codes "Sorry, I can't answer that question.") in
        let safe_message = or_else verdict.sanitized_input message in
        if not verdict.allowed
        then record_only message session_id blocked s
        else settle message session_id (attempt message session_id user_id safe_message s)
