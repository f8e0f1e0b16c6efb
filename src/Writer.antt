-- ===== src/Writer.antt =====
-- src/writer.rs: the block writer. `encoded_record_buf`, `compressed_buf` and `block_buf` are scratch
-- space that each use clears first; they are values here and not fields.
pub mod Failure
use logjet.Base.{
  ℕ, ◌-◌, ◌%◌, ◌^◌, Bool, true, false, not, ◌&&◌, List, [], ◌∷◌, ◌++◌, String, Option, none, some,
  ltb, leb, if◌then◌else◌, length, replicate, Result, ok, err, ok_or, map_err, map_ok, le_bytes,
  checked_add, checked_add_u32, checked_sub,
}
use logjet.Base.Exec.{Exec, pure, lift, gets, modify, ◌>>=◌, ◌>>◌}
use logjet.Error.{ErrorKind, Error, io, length_too_large, invalid_header, numeric_overflow}
use logjet.Record
use logjet.Record.{RecordType}
use logjet.Codec.{Codec, Libraries, compress}
use logjet.Format.{
  BlockHeader, encode, encode_ext, compute_header_crc, format_version, block_header_total_len,
  default_block_target_size, default_sync_marker,
}
use logjet.Varint.{encode_varint}

pub record WriterConfig : Type 0 where
  pub block_target_size : ℕ
  pub codec : Codec
  pub sync_marker : List ℕ
  pub block_alignment : ℕ

abbrev pub default_config : WriterConfig
default_config = record {
  block_target_size = default_block_target_size;
  codec = Codec.lz4;
  sync_marker = default_sync_marker;
  block_alignment = 0;
}

pub record LogjetWriter (W : Type 0) : Type 0 where
  pub inner : W
  pub config : WriterConfig
  pub payload_buf : List ℕ
  pub block_base_seq : Option ℕ
  pub block_base_ts_unix_ns : Option ℕ
  pub record_count : ℕ

abbrev pub is_empty {ℓ} : {A : Type ℓ} → List A → Bool
is_empty [] = true
is_empty (x ∷ xs) = false

unfoldable pub with_config : {W : Type 0} → W → WriterConfig → LogjetWriter W
with_config inner config = record {
  inner = inner;
  config = config;
  payload_buf = [];
  block_base_seq = none;
  block_base_ts_unix_ns = none;
  record_count = 0;
}

unfoldable pub pending_bytes : {W : Type 0} → LogjetWriter W → ℕ
pending_bytes w = length w.payload_buf

unfoldable pub reset_block_state : {W : Type 0} → LogjetWriter W → LogjetWriter W
reset_block_state w = record w {
  payload_buf = [];
  block_base_seq = none;
  block_base_ts_unix_ns = none;
  record_count = 0;
}

-- `u32::try_from(len)` with the error of `flush_block`.
unfoldable pub u32_len : String → ℕ → Result Error ℕ
u32_len field len =
    if ltb len (2 ^ 32) then ok len else err (length_too_large field len (2 ^ 32 - 1))

-- The record as it stands in a block's payload. A slice's length always fits a u64.
unfoldable pub encode_record : RecordType → ℕ → ℕ → List ℕ → List ℕ
encode_record record_type seq_delta ts_delta payload =
    encode_varint (length payload)
      (encode_varint ts_delta (encode_varint seq_delta (Record.as_u8 record_type ∷ [])))
    ++ payload

-- `remainder > 0` implies that `remainder` is below the alignment.
unfoldable pub padding : ℕ → ℕ → List ℕ
padding alignment len =
    let remainder = len % alignment in
    if ltb 0 alignment && ltb 0 remainder then replicate (alignment - remainder) 0 else []

-- The bases of the block, set by its first record.
unfoldable pub bases_or_set :
    {W : Type 0} → ℕ → ℕ → Option ℕ → Option ℕ → Exec (LogjetWriter W) Error (ℕ × ℕ)
bases_or_set seq ts (some base_seq) (some base_ts) w = (ok (base_seq, base_ts), w)
bases_or_set seq ts _ _ w =
    (ok (seq, ts), record w { block_base_seq = some seq; block_base_ts_unix_ns = some ts })

module _ (lib : Libraries) where
  -- The header of a block, its checksum filled in.
  unfoldable pub header_of : Codec → ℕ → ℕ → ℕ → List ℕ → BlockHeader
  header_of codec uncompressed_len compressed_len record_count ext_bytes =
      let header : BlockHeader = record {
        version = format_version;
        codec = codec;
        flags = 0;
        header_len = block_header_total_len;
        reserved = 0;
        uncompressed_len = uncompressed_len;
        compressed_len = compressed_len;
        record_count = record_count;
        header_crc32c = 0;
      } in
      record header { header_crc32c = compute_header_crc lib header ext_bytes }

  -- `block_buf` from the sync marker to the block checksum.
  unfoldable pub block_bytes : List ℕ → BlockHeader → List ℕ → List ℕ → List ℕ
  block_bytes sync_marker header ext_bytes compressed =
      let covered = encode header ++ (ext_bytes ++ compressed) in
      sync_marker ++ (covered ++ le_bytes 4 (lib.crc32c covered))

-- The sink: `write_all` of the `W: Write` that the writer is given.
module _ (lib : Libraries) {W : Type 0}
    (write_all : List ℕ → W → Result ErrorKind (Unit {0}) × W) where
  unfoldable pub write_inner : List ℕ → Exec (LogjetWriter W) Error (Unit {0})
  write_inner bytes w =
      let written = write_all bytes w.inner in
      (map_err io written.0, record w { inner = written.1 })

  unfoldable pub write_padding : List ℕ → Exec (LogjetWriter W) Error (Unit {0})
  write_padding zeroes = if is_empty zeroes then pure tt else write_inner zeroes

  -- `flush_block` past its early return.
  unfoldable pub write_block : Exec (LogjetWriter W) Error (Unit {0})
  write_block = do
    w ← gets (λ w. w)
    base_seq ← lift (ok_or w.block_base_seq (invalid_header "missing block base seq"))
    base_ts ← lift (ok_or w.block_base_ts_unix_ns (invalid_header "missing block base ts"))
    compressed ← lift (compress lib w.config.codec w.payload_buf)
    uncompressed_len ← lift (u32_len "uncompressed_len" (length w.payload_buf))
    compressed_len ← lift (u32_len "compressed_len" (length compressed))
    let ext_bytes = encode_ext (record { base_seq = base_seq; base_ts_unix_ns = base_ts })
    let header =
        header_of lib w.config.codec uncompressed_len compressed_len w.record_count ext_bytes
    let block_buf = block_bytes lib w.config.sync_marker header ext_bytes compressed
    write_inner block_buf
    write_padding (padding w.config.block_alignment (length block_buf))
    modify reset_block_state

  unfoldable pub flush_block : Exec (LogjetWriter W) Error (Unit {0})
  flush_block w = if is_empty w.payload_buf then (ok tt, w) else write_block w

  -- The record that opens a new block has both deltas 0.
  unfoldable pub roll_over : RecordType → ℕ → ℕ → List ℕ → Exec (LogjetWriter W) Error (List ℕ)
  roll_over record_type seq ts payload = do
    flush_block
    modify (λ w. record w { block_base_seq = some seq; block_base_ts_unix_ns = some ts })
    pure (encode_record record_type 0 0 payload)

  unfoldable pub add_encoded : List ℕ → Exec (LogjetWriter W) Error (Unit {0})
  add_encoded encoded = do
    modify (λ w. record w { payload_buf = w.payload_buf ++ encoded })
    count ← gets (λ w. w.record_count)
    count' ← lift (ok_or (checked_add_u32 count 1) (numeric_overflow "record_count"))
    modify (λ w. record w { record_count = count' })
    w ← gets (λ w. w)
    if leb w.config.block_target_size (length w.payload_buf) then flush_block else pure tt

  unfoldable pub push : RecordType → ℕ → ℕ → List ℕ → Exec (LogjetWriter W) Error (Unit {0})
  push record_type seq ts payload = do
    w ← gets (λ w. w)
    (base_seq, base_ts) ← bases_or_set seq ts w.block_base_seq w.block_base_ts_unix_ns
    seq_delta ← lift (
        ok_or (checked_sub seq base_seq) (invalid_header "sequence must be monotonic within block"))
    ts_delta ←
        lift (
          ok_or (checked_sub ts base_ts)
            (invalid_header "timestamp must be monotonic within block"))
    let encoded = encode_record record_type seq_delta ts_delta payload
    projected ← lift (
        ok_or (checked_add (length w.payload_buf) (length encoded))
          (numeric_overflow "payload buf growth"))
    encoded' ←
        if not (is_empty w.payload_buf) && ltb w.config.block_target_size projected
        then roll_over record_type seq ts payload
        else pure encoded
    add_encoded encoded'

  unfoldable pub into_inner : LogjetWriter W → Result Error W
  into_inner w = let flushed = flush_block w in map_ok (λ _. flushed.1.inner) flushed.0
