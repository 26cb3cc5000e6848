-- ===== src/Agent/Evidence.antt =====
-- execution_engine/agent/tool_context.py: the evidence ledger of a run.
pub mod Ledger
pub mod Eviction
pub mod Merging
