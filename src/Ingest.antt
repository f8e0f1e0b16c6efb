-- ===== src/Ingest.antt =====
-- logjetd/src/daemon.rs: what the daemon admits, and how it answers a batch.
pub mod Policy
pub mod Accounts
pub mod Limiter
pub mod Decisions
