-- ===== src/Tests.antt =====
-- Concrete runs of the modelled code, and its theorems applied to them.
pub mod Fixtures
pub mod Reading
pub mod Codecs
pub mod Writing
pub mod Wire
pub mod Spool
pub mod FileSpool
pub mod Ingest
pub mod Replay
pub mod Dedup
pub mod Endpoint
