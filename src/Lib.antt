-- ===== src/Lib.antt =====
-- The backend of a retrieval-augmented assistant: documents are cut into chunks, embedded and
-- indexed; a chat turn screens the message, resolves it against the session's history, asks the
-- caches, runs an agent that searches the chunks, and puts the answer through the gates before it
-- is filtered, cached and remembered.
--
-- Which file models which part, by the Python names (paths from the repository's root):
--   Chunker/Config, Chunker/Split, Chunker/Spans, Chunker/Paragraphs   ingestion/chunker.py
--     `ChunkingConfig`, `DocumentChunk`; `SemanticChunker._simple_split` is `simple_split`, its
--     loop `split_loop` and the search for a sentence end `scan_back`; `_create_chunk_objects`;
--     `SimpleChunker.chunk_document` is `chunk_document`.
--   Chunker/Semantic   ingestion/chunker.py: `_split_on_structure`, `_is_tabular_data`,
--     `_split_long_section`, `_semantic_chunk` with its loop `group_sections`, and
--     `SemanticChunker.chunk_document`. The model's reply is a parameter.
--   Embedder, Embedder/Cache, Embedder/Cached   ingestion/embedder.py
--     `generate_embedding`, `generate_embeddings_batch`, `_process_individually`, `embed_chunks`,
--     `EmbeddingCache`, and in Embedder/Cached the wrapper of `create_embedder`. The fallback to
--     single texts is that of a generator without the wrapper.
--   Ingest, Ingest/Documents, Ingest/Service, Ingest/Bulk   ingestion/ingest_service.py and the
--     functions of agent/db_utils.py that it calls. `ingest_document` is cut where it branches: its
--     `try` is `ingest_body`, an update `update_existing`, an insertion `insert_new`, and what both
--     end with `index_chunks`. The diff of an update is in Ingest.
--   Settings   agent/settings_store.py and agent/settings_router.py
--   Guardrails/Patterns, Guardrails/Input, Guardrails/Output   agent/guardrails.py
--     The patterns are terms of a small language of regular expressions, Base/Regex, which is
--     matched by backtracking; `check_input` and `apply_output_guardrails`; in
--     Guardrails/Scope, `classify_query_scope`.
--   Citations   agent/citations.py
--   Groundedness   agent/groundedness.py
--   Redis   the server as a parameter: the commands that the program sends, and their effect as
--     named laws of the record `RedisLaws`. A key that is given a time to live of 0 is deleted.
--   Memory   agent/session_memory.py
--     `State` is the manager beside the server's data; each method is a function on it, for the
--     backend in Redis and the one in the process.
--   Caches   agent/query_cache.py and agent/answer_cache.py, over the same server.
--   Rewriter   agent/query_rewriter.py
--   Retrieval, Retrieval/Rerank, Retrieval/Search   agent/retriever.py, agent/reranker.py,
--     `hybrid_search_tool` and the confidence gate of agent/tools.py, agent/access_control.py.
--   Turn   agent/conversation.py: `run_agent_turn`, composed of the parts above. `gates` is the
--     stretch of it that judges the agent's answer, `finish` the one behind the agent's run.
--   Database   the tables of the database as parameters: the queries that the routers send, and
--     their effect as named laws of the record `TableLaws`.
--   Http   a request as a computation on a state that can end early, in a refusal or a failure.
--   Auth   agent/auth_utils.py (Auth/Tokens), agent/auth_deps.py (Auth/Access) and
--     agent/auth_router.py (Auth/Accounts, Auth/Passwords, Auth/Sessions): each handler is a function
--     of its name. What a request draws at random, and the time, is the record `Moment`.
--   Users   agent/users_router.py: the handlers that create, read, update and delete users and
--     roles, over the tables of Auth.
--   Base   Python's texts, dictionaries, signed numbers, decimal numerals and outcomes.
--   Tests   concrete instances of the parameters, and the theorems at concrete inputs.
--
-- Conventions. A text is a list of code points; what Unicode says of them is the record `Unicode`.
-- Calls of models, engines and libraries are parameters, and `none` is an exception of the call.
-- Floating-point numbers are compared only, by the operations of the record `Floats`. Positions in
-- `_simple_split` are signed, as in Python; all other sizes are natural numbers.
--
-- Fuel. `_simple_split` need not end, so `simple_split` takes fuel; one more than the length of the
-- text is enough where its rounds move forward. The splitting into paragraphs, the replacement of
-- matches and the loop over batches take one item at least in each round, so the length of their
-- input is enough.
--
-- Not modelled: the time at which keys of the server expire, waiting and logging; the transcript
-- and the searches of agent/db_utils.py, agent/vespa_client.py, the contents of the graph and of
-- the search index; the listings, permissions and avatars of agent/users_router.py, and the rows
-- that the database deletes along with a user or a role; the API, which is a service around the
-- parts above; the parsers of files, the graph builder, the worker and the scripts, which call
-- libraries for nearly all they do. A call of a server that fails is one that has changed nothing
-- there. Requests run one after the other: what two of them do between each other's queries is
-- left out.
pub mod Base
pub mod Database
pub mod Http
pub mod Auth
pub mod Users
pub mod Settings
pub mod Chunker
pub mod Embedder
pub mod Guardrails
pub mod Citations
pub mod Groundedness
pub mod Redis
pub mod Memory
pub mod Caches
pub mod Rewriter
pub mod Retrieval
pub mod Ingest
pub mod Turn
pub mod Tests
