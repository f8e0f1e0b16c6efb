-- ===== src/Reader.antt =====
-- src/reader.rs: the block reader, which scans for sync markers and skips what does not validate.
pub mod State
pub mod Parse
pub mod Checks
pub mod Sync
pub mod Block
pub mod Scan
pub mod Steps
pub mod Rounds
pub mod Totality
