-- ===== src/Guardrails.antt =====
-- agent/guardrails.py: the input screen, the output filters of a turn and the classifier of its scope.
pub mod Patterns
pub mod Input
pub mod Output
pub mod Scrubbed
pub mod Scope
