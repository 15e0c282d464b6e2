-- ===== src/Chunker.antt =====
-- ingestion/chunker.py: the configuration, the chunk record, and the splitters by rules and by a model.
pub mod Config
pub mod Split
pub mod Spans
pub mod Paragraphs
pub mod Semantic
