-- ===== src/Agent/Retry.antt =====
-- execution_engine/agent/tool_argument_retry.py: the correction policy and its theorems.
pub mod Policy
pub mod OneShot
