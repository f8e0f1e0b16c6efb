-- ===== src/Replay.antt =====
-- The replay of a spool: the daemon's side (logjetd/src/daemon.rs) and the bridge's (logjetd/src/replay.rs).
pub mod Session
pub mod Cursor
pub mod Drain
pub mod Collectors
pub mod Bridge
pub mod State
pub mod Received
pub mod Acknowledged
pub mod Safety
pub mod Delivery
pub mod Exchange
pub mod Results
pub mod Settling
pub mod Batcher
pub mod Batches
pub mod StateParse
pub mod StateRoundTrip
pub mod Worker
pub mod Answers
pub mod Fronts
pub mod Endpoint
pub mod Routes
