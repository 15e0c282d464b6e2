-- ===== src/Tests/Conversations.antt =====
-- The theorems on the session memory and on a turn at concrete inputs.
use agentic_rag_backend.Base.{
  ◌-◌, ◌*◌, ◌≤◌, ◌≡◌, ◌⊎◌, refl, inr, length, drop, arith, true, false, none, some, [], ◌∷◌, All,
}
use agentic_rag_backend.Base.Text.{Text, codes, strip}
use agentic_rag_backend.Base.Regex.{search, search_from, run, sub, sub_from}
use agentic_rag_backend.Redis.{last_n, after_command}
use agentic_rag_backend.Memory.{
  Message, human, ai, Manager, redis, memory, client, key, State, turn_commands, add_turn, decode,
  get_messages, get_history,
}
use agentic_rag_backend.Memory.Window.{History, push_turn, Holds, add_turn_refines}
use agentic_rag_backend.Memory.Sequence.{Turns, all_turns, add_turns, get_messages-add_turns}
use agentic_rag_backend.Caches.{Outside, CacheSettings}
use agentic_rag_backend.Citations.{extract_citations}
use agentic_rag_backend.Groundedness.{default_settings, is_cacheable}
use agentic_rag_backend.Guardrails.Input.{default_tunables}
use agentic_rag_backend.Citations.Sound.{InRange}
use agentic_rag_backend.Rewriter.{RewriteSettings}
use agentic_rag_backend.Retrieval.{ChunkResult, is_low_confidence}
use agentic_rag_backend.Turn.{
  Deps, AgentRun, CachedAnswer, Services, is_hybrid, gates, run_agent_turn,
}
use agentic_rag_backend.Turn.Gates.{gates-InRange}
use agentic_rag_backend.Turn.Recorded.{run_agent_turn-Gained, run_agent_turn_returns}
use agentic_rag_backend.Tests.Sample.{
  ascii, thousandths, server, server_laws, empty_data, letters, letters_roundtrip,
}

abbrev redis_manager : Manager
redis_manager = record {
  window_size = 1;
  ttl = 3600;
  prefix = codes "session:";
  backend = redis;
  redis_checked = true;
  connected = true;
  histories = [];
}

abbrev at_start : State server letters
at_start = record { manager = redis_manager; db = empty_data }

abbrev no_history : History
no_history _ = []

start-Holds : Holds server letters at_start no_history
start-Holds = record {
  settled = inr (refl, refl, refl);
  lives = λ _. omega arith;
  in_process = λ e. absurd (cc);
  on_server = λ _ j. refl;
}

abbrev two_turns : Turns
two_turns = (codes "hi", codes "hello") ∷ (codes "fee?", codes "500") ∷ []

add_turn_refines_example :
    (s' : State server letters) × Holds server letters s'
      (push_turn 1 (codes "s") (codes "hi") (codes "hello") no_history)
unfolding add_turn client
add_turn_refines_example = (
  _,
  add_turn_refines server letters server_laws letters_roundtrip true (codes "s") (codes "hi")
      (codes "hello") at_start no_history start-Holds refl,
)

get_messages-add_turns_example :
    ((redis_manager.window_size ≡ 0)
      × (human (codes "fee?") ∷ ai (codes "500") ∷ [] ≡ all_turns two_turns))
    ⊎ ((1 ≤ redis_manager.window_size)
        × (human (codes "fee?") ∷ ai (codes "500") ∷ []
            ≡ drop (length (all_turns two_turns) - 1 * 2) (all_turns two_turns)))
unfolding add_turns add_turn client get_messages decode key turn_commands after_command last_n
    agentic_rag_backend.Memory.read_message agentic_rag_backend.Memory.write_message
get_messages-add_turns_example =
    get_messages-add_turns server letters true (codes "s") server_laws letters_roundtrip two_turns
      at_start no_history start-Holds refl refl refl

-- An agent that searches the documents and answers with a citation.
abbrev handbook : ChunkResult thousandths
handbook = record {
  chunk_id = codes "c1";
  document_id = codes "d1";
  content = codes "The fee is 500.";
  score = 900;
  vector_similarity = 600;
  document_title = codes "Handbook";
  document_source = codes "handbook.md";
}

abbrev searched : Deps thousandths
searched = record {
  retrieved_chunks = handbook ∷ [];
  selected_retrieval_tool = some (codes "hybrid_search");
}

abbrev services : Services thousandths
services = record {
  tunables = default_tunables;
  grounding = default_settings;
  rewriting = record { enabled = true; maxlen = 400 };
  caching = record {
    enabled = true;
    ttl = 600;
    prefix = codes "answers:";
    version_prefix = codes "queries:";
  };
  min_similarity = 250;
  show_index = λ _. codes "1";
  judge = λ _. none;
  rewrite = λ h q. none;
  transliterate = λ _. none;
  agent = λ _.
      some (record { output = some (codes "It is 500 [1]."); legacy_data = none; deps = searched });
}

abbrev plain_answers : Outside CachedAnswer
plain_answers = record {
  sha256 = λ t. t;
  dumps = λ a. elim a.answer [ none ↦ [] | some t ↦ t ];
  loads = λ t. some (record { answer = some t; tools = [] });
  int = λ _. none;
}

gates-InRange_example :
    (is_hybrid thousandths ascii services (some (codes "hybrid_search")) ≡ true)
    × (is_low_confidence thousandths 250 (handbook ∷ []) ≡ false)
    × All (InRange 1) (
        extract_citations ascii
          (gates thousandths ascii services (codes "It is 500 [1].") searched).0)
unfolding gates is_hybrid is_low_confidence agentic_rag_backend.Retrieval.max_cosine_similarity
    agentic_rag_backend.Groundedness.is_ok agentic_rag_backend.Citations.enforce
    agentic_rag_backend.Citations.validate_citations extract_citations
    agentic_rag_backend.Citations.out_of_range is_cacheable agentic_rag_backend.Groundedness.enforce
    agentic_rag_backend.Groundedness.assess agentic_rag_backend.Groundedness.applies
    agentic_rag_backend.Citations.count_words
gates-InRange_example =
    gates-InRange thousandths ascii services (codes "It is 500 [1].") searched refl

run_agent_turn-Gained_example :
    (out : State server letters × Text × Deps thousandths) × (out.1 ≡ codes "It is 500 [1].")
    × Holds server letters out.0 (push_turn 1 (codes "s") (codes "fee?") out.1 no_history)
unfolding run_agent_turn agentic_rag_backend.Guardrails.Input.check_input
    agentic_rag_backend.Guardrails.Input.sanitize
    agentic_rag_backend.Guardrails.Patterns.injection_re
    agentic_rag_backend.Guardrails.Patterns.abuse_re
    agentic_rag_backend.Guardrails.Patterns.role_marker_re
    agentic_rag_backend.Guardrails.Output.apply_output_guardrails
    agentic_rag_backend.Guardrails.Output.redact_pii
    agentic_rag_backend.Guardrails.Output.scrub_leaks
    agentic_rag_backend.Guardrails.Output.enforce_roman_urdu
    agentic_rag_backend.Guardrails.Output.contains_devanagari
    agentic_rag_backend.Guardrails.Patterns.cnic_re agentic_rag_backend.Guardrails.Patterns.card_re
    agentic_rag_backend.Guardrails.Patterns.key_re agentic_rag_backend.Guardrails.Patterns.token_re
    agentic_rag_backend.Guardrails.Patterns.leak_re agentic_rag_backend.Turn.attempt
    agentic_rag_backend.Turn.settle agentic_rag_backend.Turn.reply_with
    agentic_rag_backend.Turn.finish agentic_rag_backend.Turn.or_else
    agentic_rag_backend.Turn.text_or_empty agentic_rag_backend.Turn.response_of
    agentic_rag_backend.Turn.prompt agentic_rag_backend.Memory.get_context_string
    agentic_rag_backend.Memory.get_or_create agentic_rag_backend.Caches.get_answer
    agentic_rag_backend.Caches.set_answer agentic_rag_backend.Caches.fetch
    agentic_rag_backend.Caches.store agentic_rag_backend.Rewriter.condense
    agentic_rag_backend.Retrieval.max_cosine_similarity agentic_rag_backend.Groundedness.is_ok
    agentic_rag_backend.Citations.enforce agentic_rag_backend.Citations.validate_citations
    agentic_rag_backend.Citations.out_of_range agentic_rag_backend.Groundedness.enforce
    agentic_rag_backend.Groundedness.assess agentic_rag_backend.Groundedness.applies
    agentic_rag_backend.Citations.count_words gates is_hybrid is_low_confidence is_cacheable
    extract_citations strip search search_from run sub sub_from get_messages client decode add_turn
    mathlib.Core.List.flat_map mathlib.Core.Bool.xor
run_agent_turn-Gained_example = (
  (_, _, searched),
  refl,
  run_agent_turn-Gained thousandths ascii services server letters plain_answers true true []
      server_laws letters_roundtrip (codes "fee?") (codes "s") none at_start no_history
      (λ raw j. refl) start-Holds refl,
)

abbrev local_start : State server letters
local_start = record { manager = record redis_manager { backend = memory }; db = empty_data }

run_agent_turn_returns_example :
    (out : State server letters × Text × Deps thousandths) × (run_agent_turn thousandths ascii
        services server letters plain_answers true true []
        (codes "fee?")
        (codes "s")
        none
        local_start
      ≡ some out)
run_agent_turn_returns_example =
    run_agent_turn_returns thousandths ascii services server letters plain_answers true true []
      server_laws letters_roundtrip (codes "fee?") (codes "s") none local_start refl
