-- ===== src/Lib.antt =====
-- Logjet: an append-only container of telemetry records. A file is a sequence of blocks, each found
-- by an 8-byte sync marker and checked by two checksums, so that a reader resumes behind damage.
--
-- The parts, and the files that model them (paths from the repository's root):
-- - Record, Error: src/record.rs and src/error.rs. The tags of the record types and the error values;
--   error texts are left out.
-- - Codec: src/codec.rs and src/crc.rs. lz4_flex, zstd and CRC32C are third-party code: the record
--   `Libraries` has their functions, and `LibraryLaws` what they document (a checksum is a u32, and
--   decompression inverts compression).
-- - Varint: `encode_varint` of src/writer.rs and `decode_varint` of src/reader.rs.
-- - Format: src/format.rs. `encode` and `decode` are those of `BlockHeader`, `encode_ext` and
--   `decode_ext` those of `BlockHeaderExt`.
-- - Writer: src/writer.rs, `LogjetWriter` and its operations by their names. The sink `W: Write` is a
--   parameter `write_all`, which may fail.
-- - Source: what the reader uses of `R: Read + Seek`, bytes that do not change and a position.
-- - Reader: src/reader.rs. State, Parse, Checks, Sync, Block and Scan have the operations by their
--   names; Steps, Rounds, Totality and Sync/Search have what is proved of them.
-- - Log: the writer's layout and the reader together, from one payload to a whole log. `write_log` is the
--   sequence of calls of a program that writes a log: one `push` a record, then `into_inner`.
-- - Protocol: logjetd/src/protocol.rs, the daemon's frames. Frame and Wire have the records, Replay the
--   requests, hellos and acknowledgements; the input is a `Source`, the errors stand by their kinds.
-- - Spool: logjetd/src/spool.rs. Buffer has the operations of `BufferSpool`, Limits and Cursor what
--   is proved of them. `enforce_limits` runs on as many rounds as there are records, and each
--   removes one. Pruning has which segment files `prune_named_segments` and `enforce_retention`
--   remove. File has `FileSpool`: Buffered its `BufWriter<File>`, Records the loops over a
--   segment's records, State the state and the calls on the files, Operations, Cursor and Opening
--   the methods by their names. `Exec` keeps what a failing method had done; the outcome of every
--   call that changes a file is the parameter `outcome`. A loop over a segment's records runs on
--   the parameter `rounds`, which must be above the number of the records; the theorems show that
--   it is enough then. Sink and Holds, Flushing and Rotating, Appending, Newer to Finding, Calls
--   and Refinement, Choosing and Reopening, Retaining, Empty and Losing have what is proved of it,
--   and the segment files' names are in Names.
-- - Ingest: logjetd/src/daemon.rs. Policy has `SharedIngestPolicy`, the readings of the clock as
--   arguments, Decisions what is proved of one decision, and Accounts runs it on a list of batches.
--   Limiter has `ConnectionLimiter` as a step relation: a step is one access of one client's thread
--   to the shared count.
-- - Replay: the two ends of a replay. Session has `handle_replay_transport` of
--   logjetd/src/daemon.rs. Of logjetd/src/replay.rs, State and StateParse have the bridge's resume
--   file, Collectors the posts, Bridge the loop without backpressure, Results the queue and the
--   results with it, Batcher the merging of log batches, Worker the export worker, and Endpoint the
--   collector's URL. Cursor, Drain, Received, Acknowledged, Safety, Delivery, Exchange, Fronts,
--   Settling, Answers, Batches, Routes and StateRoundTrip have what is proved of them.
-- - Dedup: ljx/src/dedup. Flat has flat_record.rs, Group `DedupGroup` of mod.rs, Exact has bucket.rs and
--   exact.rs, with `xxh3_64` a parameter, and Counts what is proved of them. A hash map is the list of
--   its entries.
-- - Base: lists, little-endian numbers, checked arithmetic, results, and `Exec`, a state monad with
--   errors in which an operation keeps the state it had changed when it fails, as a `&mut self`
--   method does.
-- - Tests: concrete runs.
--
-- Lengths, counters and fields are natural numbers; a bound that the machine's width gives is
-- written out (`checked_add` fails from 2 ^ 64 on). The loops of `scan_next_block` and `next_record`
-- run on as many rounds as bytes are ahead and one more; every round but the last moves the position
-- on, and the result `none`, for rounds that ran out, is shown not to occur.
--
-- The replay's loops run on a number of rounds: as many as there are records to send and one more are
-- enough, which the theorems on them show. What a loop waits for is an argument: the client's bytes,
-- the worker's results, the order of events.
--
-- Not modelled: a failing device under the reader, the capacity of the reader's buffers, `inner_mut`,
-- appends during a replay, the ingest of OTLP requests, HTTP and gRPC and TLS under the collectors'
-- connections, the configuration, the command line tools but for exact deduplication, the C interface,
-- and the plug-ins.
pub mod Base
pub mod Error
pub mod Record
pub mod Codec
pub mod Varint
pub mod Format
pub mod Writer
pub mod Source
pub mod Reader
pub mod Log
pub mod Tests
pub mod Protocol
pub mod Spool
pub mod Ingest
pub mod Replay
pub mod Dedup
