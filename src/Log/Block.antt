-- ===== src/Log/Block.antt =====
-- One block, as `write_block` of src/writer.rs lays it out and `try_read_block_at` of src/reader.rs
-- reads it.
use logjet.Base.{
  ℕ, ◌+◌, ◌≤◌, ◌<◌, ◌^◌, ◌≡◌, refl, ap, ◌∙◌, List, ◌++◌, append_assoc, All, length, take, drop,
  arith, ok, IsU64, IsU32, from_le, le_bytes, from_le-le_bytes, bytes_eq_refl, ==_refl, checked_sub,
}
use logjet.Record.{OwnedRecord}
use logjet.Codec.{Codec, Libraries, LibraryLaws, compress, decompress-compress}
use logjet.Source.{ahead}
use logjet.Format
use logjet.Format.{
  BlockHeader, BlockHeaderExt, encode, encode_without_crc, encode_ext, decode_ext,
  compute_header_crc,
}
use logjet.Format.Headers.{
  IsHeader, length-encode, length-encode_ext, decode-encode, decode_ext-encode_ext,
}
use logjet.Writer.{header_of, block_bytes}
use logjet.Reader.State.{ReaderConfig, LogjetReader, seek_to}
use logjet.Reader.Steps.{moved, ahead-moved, read_lem, add_compressed-fits, add_uncompressed-fits}
use logjet.Reader.Checks.{check_header, check_header_crc, check_block_crc, validate_length}
use logjet.Reader.Block.{try_read_block_at, read_behind_marker}
use logjet.Log.Payload.{IsAbove, payload_of, parse_records-payload_of}

-- What one block holds.
pub record Block : Type 0 where
  pub ext : BlockHeaderExt
  pub records : List OwnedRecord
  pub compressed : List ℕ

abbrev pub payload : Block → List ℕ
payload b = payload_of b.ext b.records

-- A block that a writer can lay out and that a reader accepts.
pub record IsBlock (lib : Libraries) (codec : Codec) (rc : ReaderConfig) (b : Block) : Type 0 where
  pub base_seq : IsU64 b.ext.base_seq
  pub base_ts : IsU64 b.ext.base_ts_unix_ns
  pub above : All (IsAbove b.ext) b.records
  pub count : IsU32 (length b.records)
  pub packed : compress lib codec (payload b) ≡ ok b.compressed
  pub payload_fits : length (payload b) ≤ rc.max_uncompressed_len
  pub compressed_fits : length b.compressed ≤ rc.max_compressed_len

-- The limits of a reader are lengths that the header can hold.
pub record IsConfig (rc : ReaderConfig) : Type 0 where
  pub marker_len : length rc.sync_marker ≡ 8
  pub uncompressed : IsU32 rc.max_uncompressed_len
  pub compressed : IsU32 rc.max_compressed_len

module _ (lib : Libraries) (codec : Codec) where
  abbrev pub header : Block → BlockHeader
  header b =
      header_of lib codec (length (payload b)) (length b.compressed) (length b.records)
        (encode_ext b.ext)

  -- The bytes behind the marker that the block's checksum covers.
  abbrev covered : Block → List ℕ
  covered b = encode (header b) ++ (encode_ext b.ext ++ b.compressed)

  abbrev pub block_image : List ℕ → Block → List ℕ
  block_image marker b = block_bytes lib marker (header b) (encode_ext b.ext) b.compressed

module _ (lib : Libraries) (laws : LibraryLaws lib) (codec : Codec) (rc : ReaderConfig) (b : Block)
    (config_ok : IsConfig rc) (block_ok : IsBlock lib codec rc b) where
  header-IsHeader : IsHeader (header lib codec b)
  unfolding header_of compute_header_crc
  header-IsHeader = record {
    flags = omega arith;
    header_len = omega arith;
    reserved = omega arith;
    uncompressed_len = omega (arith, block_ok.payload_fits, config_ok.uncompressed);
    compressed_len = omega (arith, block_ok.compressed_fits, config_ok.compressed);
    record_count = block_ok.count;
    header_crc32c = laws.crc32c_u32 _;
  }

  decoded_header : Format.decode (encode (header lib codec b)) ≡ ok (header lib codec b)
  unfolding header_of
  decoded_header = decode-encode (header lib codec b) refl header-IsHeader

  header_checked : check_header rc (header lib codec b) ≡ ok 16
  unfolding check_header header_of validate_length checked_sub
  header_checked = ground (arith, block_ok.payload_fits, block_ok.compressed_fits)

  header_crc_checked : check_header_crc lib (header lib codec b) (encode_ext b.ext) ≡ ok tt
  unfolding check_header_crc header_of compute_header_crc encode_without_crc
  header_crc_checked = rw (==_refl (lib.crc32c _))

  decoded_ext : decode_ext (take 16 (encode_ext b.ext)) ≡ ok b.ext
  unfolding encode_ext
  decoded_ext = decode_ext-encode_ext b.ext block_ok.base_seq block_ok.base_ts

  block_crc_checked :
      check_block_crc lib
        (from_le (le_bytes 4 (lib.crc32c (covered lib codec b))))
        (covered lib codec b)
      ≡ ok tt
  unfolding check_block_crc
  block_crc_checked = rw (
    from_le-le_bytes 4 _ (laws.crc32c_u32 (covered lib codec b)),
    ==_refl (lib.crc32c (covered lib codec b)),
  )

  abbrev stored_crc : List ℕ
  stored_crc = le_bytes 4 (lib.crc32c (covered lib codec b))

  -- The reader behind the block, its totals grown by the block's lengths.
  abbrev pub past_block : LogjetReader → LogjetReader
  past_block s = record (moved 4 (moved (length b.compressed) (moved 16 (moved 24 s)))) {
    stats = record s.stats {
      total_compressed_bytes = s.stats.total_compressed_bytes + length b.compressed;
      total_uncompressed_bytes = s.stats.total_uncompressed_bytes + length (payload b);
    };
  }

  read_behind_marker-block :
      (s : LogjetReader) (rest : List ℕ)
      → ahead s.inner
        ≡ encode (header lib codec b)
          ++ (encode_ext b.ext ++ (b.compressed ++ (stored_crc ++ rest)))
      → s.stats.total_compressed_bytes + length b.compressed < 2 ^ 64
      → s.stats.total_uncompressed_bytes + length (payload b) < 2 ^ 64
      → read_behind_marker lib rc rc.sync_marker s ≡ (ok b.records, past_block s)
  unfolding read_behind_marker header_of
  read_behind_marker-block s rest a₀ room_c room_u =
      let a₁ = ahead-moved 24 (encode (header lib codec b)) _ s (length-encode _) a₀ in
      let a₂ = ahead-moved 16 (encode_ext b.ext) _ (moved 24 s) (length-encode_ext b.ext) a₁ in
      let a₃ = ahead-moved (length b.compressed) b.compressed _ (moved 16 (moved 24 s)) refl a₂ in
      rw (bytes_eq_refl rc.sync_marker) (
        rw (read_lem 24 (encode (header lib codec b)) _ s (length-encode _) a₀) (
          rw decoded_header (
            rw header_checked (
              rw (read_lem 16 (encode_ext b.ext) _ (moved 24 s) (length-encode_ext b.ext) a₁) (
                rw header_crc_checked (
                  rw decoded_ext (
                    rw
                      (read_lem (length b.compressed) b.compressed _ (moved 16 (moved 24 s)) refl
                        a₂)
                      (rw
                        (read_lem 4 stored_crc rest
                          (moved (length b.compressed) (moved 16 (moved 24 s))) refl a₃)
                        (rw block_crc_checked (
                          rw (add_compressed-fits (length b.compressed) read_all room_c) (
                            rw
                              (add_uncompressed-fits (length (payload b)) compressed_counted room_u)
                              (rw
                                (decompress-compress lib laws codec (payload b) b.compressed
                                  block_ok.packed)
                                (rw (
                                  parse_records-payload_of b.ext b.records block_ok.above (
                                    omega (
                                      arith, block_ok.payload_fits, config_ok.uncompressed,
                                    ))))))))))))))))
    where
      read_all : LogjetReader
      read_all = moved 4 (moved (length b.compressed) (moved 16 (moved 24 s)))

      compressed_counted : LogjetReader
      compressed_counted = record read_all {
        stats = record s.stats {
          total_compressed_bytes = s.stats.total_compressed_bytes + length b.compressed;
        };
      }

  image_regroup :
      (rest : List ℕ)
      → block_image lib codec rc.sync_marker b ++ rest
        ≡ rc.sync_marker
          ++ (encode (header lib codec b)
              ++ (encode_ext b.ext ++ (b.compressed ++ (stored_crc ++ rest))))
  unfolding block_bytes
  image_regroup rest = simp append_assoc

  module _ (p : ℕ) (r : LogjetReader) (rest : List ℕ) (config : r.config ≡ rc)
      (at_p : drop p r.inner.bytes ≡ block_image lib codec rc.sync_marker b ++ rest)
      (room_c : r.stats.total_compressed_bytes + length b.compressed < 2 ^ 64)
      (room_u : r.stats.total_uncompressed_bytes + length (payload b) < 2 ^ 64) where
    abbrev at_block : LogjetReader
    at_block = seek_to p r

    -- Where the bytes at `p` are those of a valid block, whatever follows them, `try_read_block_at`
    -- returns the block's records and leaves the reader behind it, its totals grown by the block's
    -- lengths, if neither total overflows.
    pub try_read_block_at-block :
        try_read_block_at lib p r ≡ (ok b.records, past_block (moved 8 at_block))
    unfolding try_read_block_at
    try_read_block_at-block =
        let found = at_p ∙ image_regroup rest in
        rw (read_lem 8 rc.sync_marker _ at_block config_ok.marker_len found) (
          ap (λ (c : ReaderConfig). read_behind_marker lib c rc.sync_marker (moved 8 at_block))
            config
          ∙ read_behind_marker-block (moved 8 at_block) rest
              (ahead-moved 8 rc.sync_marker _ at_block config_ok.marker_len found) room_c room_u)

    pub ahead-past_block : ahead (past_block (moved 8 at_block)).inner ≡ rest
    ahead-past_block =
        let a₀ =
          ahead-moved 8 rc.sync_marker _ at_block config_ok.marker_len
            (at_p ∙ image_regroup rest) in
        let a₁ =
          ahead-moved 24 (encode (header lib codec b)) _ (moved 8 at_block) (length-encode _) a₀ in
        let a₂ =
          ahead-moved 16 (encode_ext b.ext) _ (moved 24 (moved 8 at_block))
            (length-encode_ext b.ext) a₁ in
        let a₃ =
          ahead-moved (length b.compressed) b.compressed _ (moved 16 (moved 24 (moved 8 at_block)))
            refl a₂ in
        ahead-moved 4 stored_crc rest
          (moved (length b.compressed) (moved 16 (moved 24 (moved 8 at_block)))) refl a₃
