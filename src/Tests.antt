-- ===== src/Tests.antt =====
-- The theorems at concrete inputs, and runs of the code.
mod Sample
mod Chunking
mod Answers
mod Conversations
mod Services
mod Tables
mod Accounts
mod Logins
mod Ingestion
mod Configured
mod Directory
