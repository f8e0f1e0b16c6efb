-- ===== src/Reader/Block.antt =====
-- `try_read_block_at` of src/reader.rs.
use logjet.Base.{ℕ, not, List, ◌++◌, take, bytes_eq, fail_if, from_le}
use logjet.Base.Exec.{Exec, lift, gets, modify, ◌>>=◌, ◌>>◌}
use logjet.Error.{Error, invalid_header}
use logjet.Record.{OwnedRecord}
use logjet.Codec.{Libraries, decompress}
use logjet.Format.{decode, decode_ext, block_header_fixed_len, block_header_ext_len}
use logjet.Reader.State.{
  ReaderConfig, LogjetReader, seek_to, read, add_compressed, add_uncompressed,
}
use logjet.Reader.Parse.{parse_records}
use logjet.Reader.Checks.{check_header, check_header_crc, check_block_crc}

module _ (lib : Libraries) where
  -- `try_read_block_at` behind its read of the marker.
  unfoldable pub read_behind_marker :
      ReaderConfig → List ℕ → Exec LogjetReader Error (List OwnedRecord)
  read_behind_marker config sync = do
    lift (fail_if (not (bytes_eq sync config.sync_marker)) (invalid_header "sync mismatch"))
    fixed ← read block_header_fixed_len
    header ← lift (decode fixed)
    ext_len ← lift (check_header config header)
    ext_bytes ← read ext_len
    lift (check_header_crc lib header ext_bytes)
    ext ← lift (decode_ext (take block_header_ext_len ext_bytes))
    compressed ← read header.compressed_len
    block_crc_bytes ← read 4
    lift (check_block_crc lib (from_le block_crc_bytes) (fixed ++ (ext_bytes ++ compressed)))
    add_compressed header.compressed_len
    add_uncompressed header.uncompressed_len
    payload ← lift (decompress lib header.codec compressed header.uncompressed_len)
    lift (parse_records payload header.record_count ext)

  unfoldable pub try_read_block_at : ℕ → Exec LogjetReader Error (List OwnedRecord)
  try_read_block_at sync_start = do
    modify (seek_to sync_start)
    config ← gets (λ r. r.config)
    sync ← read 8
    read_behind_marker config sync
