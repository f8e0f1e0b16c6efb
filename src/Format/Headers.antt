-- ===== src/Format/Headers.antt =====
-- The headers of src/format.rs: sizes, and decoding what was encoded.
use logjet.Base.{◌≡◌, refl, ◌==◌, true, length, ok, IsU16, IsU32, IsU64, from_le-le_bytes}
use logjet.Codec
use logjet.Format.{
  BlockHeader, BlockHeaderExt, encode, decode, encode_ext, decode_ext, format_version,
}

-- The ranges that the field types give.
pub record IsHeader (h : BlockHeader) : Type 0 where
  pub flags : IsU16 h.flags
  pub header_len : IsU16 h.header_len
  pub reserved : IsU16 h.reserved
  pub uncompressed_len : IsU32 h.uncompressed_len
  pub compressed_len : IsU32 h.compressed_len
  pub record_count : IsU32 h.record_count
  pub header_crc32c : IsU32 h.header_crc32c

pub length-encode : (h : BlockHeader) → length (encode h) ≡ 24
unfolding encode
length-encode h = refl

pub length-encode_ext : (e : BlockHeaderExt) → length (encode_ext e) ≡ 16
unfolding encode_ext
length-encode_ext e = refl

-- `decode` returns every header of version 1, with fields in range, from the 24 bytes that `encode`
-- wrote for it.
pub decode-encode :
    (h : BlockHeader) → h.version ≡ format_version → IsHeader h → decode (encode h) ≡ ok h
unfolding decode encode
decode-encode h hv r =
    rw (version_ok, Codec.from_u8-as_u8 h.codec)
      (λ i. ok (record {
        version = h.version;
        codec = h.codec;
        flags = from_le-le_bytes 2 h.flags r.flags i;
        header_len = from_le-le_bytes 2 h.header_len r.header_len i;
        reserved = from_le-le_bytes 2 h.reserved r.reserved i;
        uncompressed_len = from_le-le_bytes 4 h.uncompressed_len r.uncompressed_len i;
        compressed_len = from_le-le_bytes 4 h.compressed_len r.compressed_len i;
        record_count = from_le-le_bytes 4 h.record_count r.record_count i;
        header_crc32c = from_le-le_bytes 4 h.header_crc32c r.header_crc32c i;
      }))
  where
    version_ok : (h.version == 1) ≡ true
    version_ok = rw hv

-- `decode_ext` returns every extension with bases in u64 from the 16 bytes that `encode_ext` wrote
-- for it.
pub decode_ext-encode_ext :
    (e : BlockHeaderExt)
    → IsU64 e.base_seq
    → IsU64 e.base_ts_unix_ns
    → decode_ext (encode_ext e) ≡ ok e
unfolding decode_ext encode_ext
decode_ext-encode_ext e hs ht = λ i. ok (record {
  base_seq = from_le-le_bytes 8 e.base_seq hs i;
  base_ts_unix_ns = from_le-le_bytes 8 e.base_ts_unix_ns ht i;
})
