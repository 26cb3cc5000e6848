-- ===== src/Worker.antt =====
-- execution_engine/worker.py and worker_cleanup.py: one execution of a run.
pub mod State
pub mod Resume
pub mod Stream
pub mod Execute
pub mod Phases
pub mod Steps
pub mod Body
pub mod Settled
pub mod Noticed
pub mod Finalizing
pub mod Ending
