-- ===== src/Codec.antt =====
-- src/codec.rs and src/crc.rs: the payload codecs. LZ4, Zstandard and CRC32C are libraries outside
-- the repository, and stand as the fields of `Libraries`.
use logjet.Base.{
  ℕ, ◌≡◌, refl, ◌⊎◌, inl, inr, List, String, arith, ◌==◌, not, if◌then◌else◌, length, Result, ok,
  err, fail_if, ◌>>=◌, ◌>>◌, IsU32,
}
use logjet.Error.{Error, unknown_codec, invalid_header, library, lz4_length}

pub data Codec : Type 0 where
  raw lz4 zstd : Codec

-- `codec as u8`
abbrev pub as_u8 : Codec → ℕ
as_u8 raw = 0
as_u8 lz4 = 1
as_u8 zstd = 2

unfoldable pub from_u8 : ℕ → Result Error Codec
from_u8 value =
    if value == 0
    then ok raw
    else if value == 1
    then ok lz4
    else if value == 2
    then ok zstd
    else err (unknown_codec value)

-- What the code calls: `crc32c::crc32c`, `lz4_flex::block::{compress, decompress}` and
-- `zstd::bulk::{compress, decompress}`; `inl` is the library's error text.
pub record Libraries : Type 0 where
  pub crc32c : List ℕ → ℕ
  pub lz4_compress : List ℕ → List ℕ
  pub lz4_decompress : List ℕ → ℕ → String ⊎ List ℕ
  pub zstd_compress : List ℕ → String ⊎ List ℕ
  pub zstd_decompress : List ℕ → ℕ → String ⊎ List ℕ

-- What the libraries document: a checksum is a `u32`, and what was compressed decompresses to
-- itself at its own length.
pub record LibraryLaws (lib : Libraries) : Type 0 where
  pub crc32c_u32 : (bytes : List ℕ) → IsU32 (lib.crc32c bytes)
  pub lz4_inverse :
      (bytes : List ℕ) → lib.lz4_decompress (lib.lz4_compress bytes) (length bytes) ≡ inr bytes
  pub zstd_inverse :
      (bytes packed : List ℕ)
      → lib.zstd_compress bytes ≡ inr packed
      → lib.zstd_decompress packed (length bytes) ≡ inr bytes

-- `.map_err(|err| Error::Codec(err.to_string()))?`
abbrev pub codec_error : String ⊎ List ℕ → Result Error (List ℕ)
codec_error (inl text) = err (Error.codec (library text))
codec_error (inr bytes) = ok bytes

module _ (lib : Libraries) where
  -- The result is what `output` holds.
  unfoldable pub compress : Codec → List ℕ → Result Error (List ℕ)
  compress raw input = ok input
  compress lz4 input = ok (lib.lz4_compress input)
  compress zstd input = codec_error (lib.zstd_compress input)

  unfoldable pub decompress : Codec → List ℕ → ℕ → Result Error (List ℕ)
  decompress raw input expected_len =
      if not (length input == expected_len)
      then err (invalid_header "raw payload length mismatch")
      else ok input
  decompress lz4 input expected_len = do
    decoded ← codec_error (lib.lz4_decompress input expected_len)
    fail_if (not (length decoded == expected_len))
        (Error.codec (lz4_length (length decoded) expected_len))
    ok decoded
  decompress zstd input expected_len = codec_error (lib.zstd_decompress input expected_len)

pub from_u8-as_u8 : (c : Codec) → from_u8 (as_u8 c) ≡ ok c
unfolding from_u8
from_u8-as_u8 raw = refl
from_u8-as_u8 lz4 = refl
from_u8-as_u8 zstd = refl

module _ (lib : Libraries) (laws : LibraryLaws lib) where
  -- What `compress` returns for an input, `decompress` of the same codec turns back into the input
  -- at the input's length, if the libraries invert their own compression.
  pub decompress-compress :
      (c : Codec) (input packed : List ℕ)
      → compress lib c input ≡ ok packed
      → decompress lib c packed (length input) ≡ ok input
  unfolding compress decompress
  decompress-compress raw input packed h = ground arith
  decompress-compress lz4 input packed h = ground (arith, laws.lz4_inverse input)
  decompress-compress zstd input packed h = ground (arith, laws.zstd_inverse input packed)
