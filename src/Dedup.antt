-- ===== src/Dedup.antt =====
-- ljx/src/dedup: the deduplication of log records.
pub mod Flat
pub mod Group
pub mod Exact
pub mod Counts
