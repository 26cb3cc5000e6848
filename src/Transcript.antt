-- ===== src/Transcript.antt =====
-- execution_engine/transcript.py: the transcript that is sent to a model provider.
pub mod Turns
pub mod Sequence
pub mod Grammar
pub mod Validity
pub mod Compaction
pub mod Compacted
