-- ===== src/Spool.antt =====
-- logjetd/src/spool.rs: the records that the daemon holds for replay.
pub mod Buffer
pub mod Limits
pub mod Cursor
pub mod Pruning
pub mod Retention
pub mod Kept
pub mod File
