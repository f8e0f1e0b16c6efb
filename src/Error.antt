-- ===== src/Error.antt =====
-- src/error.rs: the errors of the format crate. An `io::Error` is its kind, and a formatted message
-- is the values in it.
use logjet.Base.{ℕ, String}

pub data ErrorKind : Type 0 where
  unexpected_eof invalid_data invalid_input broken_pipe timed_out not_found other : ErrorKind

-- The texts that reach `Error::Codec`: a library's own, and the one for a wrong LZ4 length.
pub data CodecFault : Type 0 where
  library : String → CodecFault
  lz4_length : ℕ → ℕ → CodecFault

pub data Error : Type 0 where
  io : ErrorKind → Error
  invalid_record_type : ℕ → Error
  unknown_codec : ℕ → Error
  unknown_version : ℕ → Error
  header_too_short : ℕ → Error
  header_crc_mismatch : ℕ → ℕ → Error
  block_crc_mismatch : ℕ → ℕ → Error
  length_too_large : String → ℕ → ℕ → Error
  invalid_header : String → Error
  truncated : String → Error
  varint_too_long : Error
  numeric_overflow : String → Error
  record_too_large : ℕ → ℕ → Error
  codec : CodecFault → Error
