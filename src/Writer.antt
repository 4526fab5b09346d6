-- ===== src/Writer.antt =====
-- src/writer.rs: the task that batches rows and commits each batch with the checkpoint.
pub mod Flush
pub mod Loop
pub mod Atomic
pub mod Latest
pub mod Kept
pub mod Flushed
pub mod Lossless
pub mod Checkpoint
pub mod Progress
pub mod Sourced
pub mod Admitted
pub mod Integrity
pub mod Delivery
