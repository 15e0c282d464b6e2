-- ===== src/Guardrails/Scope.antt =====
-- `classify_query_scope` of agent/guardrails.py. The language model is `llm`, on the two messages,
-- and the configuration is an argument; `none` is an exception.
use mathlib.Core.List.{flat_map}
use agentic_rag_backend.Base.{true, false, Option, none, some, [], ◌∷◌, ◌++◌, if◌then◌else◌}
use agentic_rag_backend.Base.Text.{Text, Unicode, codes, strip, is_empty, contains, join}
use agentic_rag_backend.Settings.{AgentConfig}

unfoldable pub scope_prompt : Text → Text
scope_prompt scope_desc = join (10 ∷ []) (
    codes "You are a scope classifier for an AI assistant."
    ∷ (codes "The assistant ONLY answers questions about: " ++ (scope_desc ++ codes "."))
    ∷ codes
        "Judge the LATEST message, using the conversation so far to resolve follow-ups and pronouns. A short follow-up ('and phase 3?', 'what about the fee?') is IN_SCOPE when the ongoing topic is in scope."
    ∷ codes
        "If the latest message is about that scope, reply IN_SCOPE. If it is clearly unrelated (general trivia, unrelated chit-chat, topics outside the scope above), reply OUT_OF_SCOPE."
    ∷ codes "Respond with ONLY one word: 'IN_SCOPE' or 'OUT_OF_SCOPE'."
    ∷ [])

-- `user_content`; a history that is empty counts as none.
unfoldable pub user_content : Text → Option Text → Text
user_content query none = query
user_content query (some history) =
    if is_empty history
    then query
    else codes "Conversation so far:"
      ++ (10 ∷ (history ++ (10 ∷ 10 ∷ (codes "Latest message: " ++ query))))

-- `content or ""`
abbrev reply_text : Option Text → Text
reply_text none = []
reply_text (some t) = t

module _ (u : Unicode) where
  -- The answer that a reply stands for.
  unfoldable pub scope_of : Option Text → Text
  scope_of reply =
      if contains (codes "OUT_OF_SCOPE") (flat_map u.upper_char (strip u (reply_text reply)))
      then codes "out_of_scope"
      else codes "in_scope"

  unfoldable pub classify_query_scope :
      (Text → Text → Option (Option Text)) → Option AgentConfig → Text → Option Text → Text
  classify_query_scope llm none query history = codes "in_scope"
  classify_query_scope llm (some config) query history = elim config.enforce_scope [
    | false ↦ codes "in_scope"
    | true ↦ elim (llm (scope_prompt config.scope_description) (user_content query history)) [
      | none ↦ codes "in_scope"
      | some reply ↦ scope_of reply
    ]
  ]
