-- ===== src/Registry.antt =====
-- execution_engine/run_registry.py, execution_engine/run_scheduling.py and
-- execution_engine/run_draining.py: the registry of runs, its bounded local queue and its drain.
pub mod Identity
pub mod State
pub mod Scheduling
pub mod Draining
pub mod Completion
pub mod Recovery
pub mod Replaying
pub mod Restart
pub mod Replays
pub mod Lifecycle
pub mod Bounds
pub mod Steps
pub mod KeyEquality
pub mod Idempotency
pub mod Fencing
pub mod Persistence
