-- ===== src/Authority.antt =====
-- execution_engine/worker_tool_authority.py: which tools a run may use, and under which names.
pub mod Routing
pub mod Exact
