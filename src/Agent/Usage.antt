-- ===== src/Agent/Usage.antt =====
-- execution_engine/agent/stream_usage.py: the usage that a run reports.
pub mod Accounting
pub mod Totals
