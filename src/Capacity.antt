-- ===== src/Capacity.antt =====
-- execution_engine/capacity.py: the authority that the control plane grants for an execution.
pub mod Lease
pub mod Dispatch
pub mod Fence
pub mod Outcome
