-- ===== src/Protocol.antt =====
-- logjetd/src/protocol.rs: the records and the replay messages on the wire.
pub mod Frame
pub mod Wire
pub mod Replay
pub mod ReplayRoundTrip
pub mod WireRoundTrip
pub mod ReplayAhead
