-- ===== src/Format.antt =====
-- src/format.rs: the constants of a block, its header and the header extension.
pub mod Headers
use Prim.Native.String.{String}
use logjet.Base.{
  ℕ, ◌+◌, ◌-◌, ◌*◌, ◌≡◌, refl, List, [], ◌∷◌, ◌++◌, ltb, ◌==◌, not, if◌then◌else◌, length, take,
  drop, Result, ok, err, ◌>>=◌, ◌>>◌, fail_if, le_bytes, from_le,
}
use logjet.Error.{Error, truncated, unknown_version}
use logjet.Codec
use logjet.Codec.{Codec, Libraries}

abbrev pub format_version : ℕ
format_version = 1

-- *b"OTLPBLK!"
abbrev pub default_sync_marker : List ℕ
default_sync_marker = b'O' ∷ b'T' ∷ b'L' ∷ b'P' ∷ b'B' ∷ b'L' ∷ b'K' ∷ b'!' ∷ []

abbrev pub default_block_target_size : ℕ
default_block_target_size = 64 * 1024

abbrev pub default_max_block_size : ℕ
default_max_block_size = 16 * 1024 * 1024

abbrev pub block_header_fixed_len : ℕ
block_header_fixed_len = 24

abbrev pub block_header_ext_len : ℕ
block_header_ext_len = 16

abbrev pub block_header_total_len : ℕ
block_header_total_len = block_header_fixed_len + block_header_ext_len

pub record BlockHeader : Type 0 where
  pub version : ℕ
  pub codec : Codec
  pub flags : ℕ
  pub header_len : ℕ
  pub reserved : ℕ
  pub uncompressed_len : ℕ
  pub compressed_len : ℕ
  pub record_count : ℕ
  pub header_crc32c : ℕ

pub record BlockHeaderExt : Type 0 where
  pub base_seq : ℕ
  pub base_ts_unix_ns : ℕ

-- What the method appends to `output`.
unfoldable pub encode_without_crc : BlockHeader → List ℕ
encode_without_crc h =
    h.version
    ∷ Codec.as_u8 h.codec
    ∷ (le_bytes 2 h.flags
        ++ (le_bytes 2 h.header_len
            ++ (le_bytes 2 h.reserved
                ++ (le_bytes 4 h.uncompressed_len
                    ++ (le_bytes 4 h.compressed_len ++ le_bytes 4 h.record_count)))))

unfoldable pub encode : BlockHeader → List ℕ
unfolding encode_without_crc
encode h = encode_without_crc h ++ le_bytes 4 h.header_crc32c

-- `bytes[at]`, behind a test of the length.
abbrev head_or_zero : List ℕ → ℕ
head_or_zero [] = 0
head_or_zero (b ∷ bs) = b

abbrev byte_at : ℕ → List ℕ → ℕ
byte_at at bytes = head_or_zero (drop at bytes)

-- An unsigned integer of `width` bytes from `bytes[at]` on.
abbrev int_at : ℕ → ℕ → List ℕ → ℕ
int_at at width bytes = from_le (take width (drop at bytes))

unfoldable pub decode : List ℕ → Result Error BlockHeader
decode bytes = do
  fail_if (ltb (length bytes) block_header_fixed_len) (truncated "block header")
  let version = byte_at 0 bytes
  fail_if (not (version == format_version)) (unknown_version version)
  codec ← Codec.from_u8 (byte_at 1 bytes)
  ok (record {
    version = version;
    codec = codec;
    flags = int_at 2 2 bytes;
    header_len = int_at 4 2 bytes;
    reserved = int_at 6 2 bytes;
    uncompressed_len = int_at 8 4 bytes;
    compressed_len = int_at 12 4 bytes;
    record_count = int_at 16 4 bytes;
    header_crc32c = int_at 20 4 bytes;
  })

unfoldable pub compute_header_crc : Libraries → BlockHeader → List ℕ → ℕ
compute_header_crc lib h ext_bytes = lib.crc32c (encode_without_crc h ++ ext_bytes)

unfoldable pub encode_ext : BlockHeaderExt → List ℕ
encode_ext e = le_bytes 8 e.base_seq ++ le_bytes 8 e.base_ts_unix_ns

unfoldable pub decode_ext : List ℕ → Result Error BlockHeaderExt
decode_ext bytes = do
  fail_if (ltb (length bytes) block_header_ext_len) (truncated "block header extension")
  ok (record { base_seq = int_at 0 8 bytes; base_ts_unix_ns = int_at 8 8 bytes })
