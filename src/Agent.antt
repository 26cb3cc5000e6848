-- ===== src/Agent.antt =====
-- execution_engine/agent and reasoning_summary_events.py: the policies of the agent loop.
pub mod Retry
pub mod Skills
pub mod Evidence
pub mod Usage
pub mod Summary
