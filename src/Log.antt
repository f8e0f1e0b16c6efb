-- ===== src/Log.antt =====
-- The writer and the reader together: what src/writer.rs writes, src/reader.rs reads back.
pub mod Payload
pub mod Block
pub mod Recovery
pub mod File
pub mod Layout
pub mod Reading
pub mod Sink
pub mod Flushing
pub mod Pushing
pub mod Writing
pub mod RoundTrip
