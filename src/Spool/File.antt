-- ===== src/Spool/File.antt =====
-- `FileSpool` of logjetd/src/spool.rs: the spool in segment files.
pub mod Buffered
pub mod Records
pub mod State
pub mod Operations
pub mod Cursor
pub mod Opening
pub mod Reading
pub mod Sink
pub mod Holds
pub mod Flushing
pub mod Rotating
pub mod Appending
pub mod Newer
pub mod Consuming
pub mod Cleaning
pub mod Advancing
pub mod Acknowledging
pub mod Finding
pub mod Calls
pub mod Refinement
pub mod Choosing
pub mod Reopening
pub mod Empty
pub mod Losing
pub mod Names
pub mod Retaining
