-- ===== src/Reader/Checks.antt =====
-- The tests that `try_read_block_at` of src/reader.rs makes on what it has read.
use logjet.Base.{
  ℕ, not, List, String, ltb, ◌==◌, Result, ok, ok_or, fail_if, ◌>>=◌, ◌>>◌, checked_sub,
}
use logjet.Error.{
  Error, length_too_large, invalid_header, header_too_short, header_crc_mismatch,
  block_crc_mismatch,
}
use logjet.Codec.{Libraries}
use logjet.Format.{
  BlockHeader, compute_header_crc, block_header_total_len, block_header_fixed_len,
  block_header_ext_len,
}
use logjet.Reader.State.{ReaderConfig}

unfoldable pub validate_length : String → ℕ → ℕ → Result Error (Unit {0})
validate_length field value limit = fail_if (ltb limit value) (length_too_large field value limit)

-- The header tests of `try_read_block_at` up to the read of the extension; the result is the
-- extension's length.
unfoldable pub check_header : ReaderConfig → BlockHeader → Result Error ℕ
check_header config header = do
  fail_if (ltb header.header_len block_header_total_len) (header_too_short header.header_len)
  ext_len ←
      ok_or (checked_sub header.header_len block_header_fixed_len)
        (invalid_header "header length underflow")
  fail_if (ltb ext_len block_header_ext_len) (invalid_header "missing required header extension")
  validate_length "compressed_len" header.compressed_len config.max_compressed_len
  validate_length "uncompressed_len" header.uncompressed_len config.max_uncompressed_len
  ok ext_len

module _ (lib : Libraries) where
  unfoldable pub check_header_crc : BlockHeader → List ℕ → Result Error (Unit {0})
  check_header_crc header ext_bytes =
      let computed = compute_header_crc lib header ext_bytes in
      fail_if (not (computed == header.header_crc32c))
        (header_crc_mismatch header.header_crc32c computed)

  unfoldable pub check_block_crc : ℕ → List ℕ → Result Error (Unit {0})
  check_block_crc stored covered =
      let computed = lib.crc32c covered in
      fail_if (not (stored == computed)) (block_crc_mismatch stored computed)
