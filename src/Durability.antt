-- ===== src/Durability.antt =====
-- execution_engine/durability.py: the durable store over Redis.
pub mod Records
pub mod Redis
pub mod Memory
pub mod Store
pub mod Outbox
pub mod Commits
pub mod Frames
pub mod Locks
pub mod Ownership
pub mod Runs
pub mod Delivery
pub mod Acknowledged
