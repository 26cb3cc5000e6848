-- ===== src/Agent/Summary.antt =====
-- execution_engine/reasoning_summary_events.py: the summaries of a provider as run events.
pub mod Forwarding
pub mod Lossless
