-- ===== src/Tests.antt =====
-- The theorems at concrete inputs, over the Redis in memory.
pub mod Data
mod Transcripts
mod Summaries
mod Dispatches
mod Locks
mod Schemas
mod Remediations
mod Executions
mod Outbox
mod Runs
mod Policies
mod Loops
mod Recoveries
mod Authorities
