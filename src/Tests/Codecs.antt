-- ===== src/Tests/Codecs.antt =====
-- The codecs' theorems at concrete numbers, headers and payloads.
use logjet.Base.{◌+◌, ◌≤◌, ◌<◌, ◌≡◌, refl, [], ◌∷◌, ◌++◌, arith, ok}
use logjet.Codec.{Codec, compress}
use logjet.Varint.{encode_varint, decode_varint}
use logjet.Varint.RoundTrip.{decode_varint-encode_varint}
use logjet.Varint.Decode.{decode_varint_takes}
use logjet.Format.{BlockHeader, BlockHeaderExt, encode, decode}
use logjet.Format.Headers.{IsHeader, decode-encode}
use logjet.Tests.Fixtures.{toy}

decode_varint-encode_varint_example :
    decode_varint (encode_varint 300 [] ++ (7 ∷ [])) ≡ ok (300, 7 ∷ [])
decode_varint-encode_varint_example = decode_varint-encode_varint 300 (7 ∷ []) (omega arith)

three_hundred : decode_varint (172 ∷ 2 ∷ 9 ∷ []) ≡ ok (300, 9 ∷ [])
unfolding decode_varint
three_hundred = refl

decode_varint_takes_example : (1 < 3) × (3 ≤ 1 + 10)
decode_varint_takes_example = decode_varint_takes (172 ∷ 2 ∷ 9 ∷ []) 300 (9 ∷ []) three_hundred

abbrev header : BlockHeader
header = record {
  version = 1;
  codec = Codec.zstd;
  flags = 3;
  header_len = 40;
  reserved = 0;
  uncompressed_len = 70000;
  compressed_len = 65536;
  record_count = 12;
  header_crc32c = 4000000000;
}

header-IsHeader : IsHeader header
header-IsHeader = record {
  flags = omega arith;
  header_len = omega arith;
  reserved = omega arith;
  uncompressed_len = omega arith;
  compressed_len = omega arith;
  record_count = omega arith;
  header_crc32c = omega arith;
}

decode-encode_example : decode (encode header) ≡ ok header
decode-encode_example = decode-encode header refl header-IsHeader

abbrev header_ext : BlockHeaderExt
header_ext = record { base_seq = 18446744073709551615; base_ts_unix_ns = 1700000000 }

packed_by_lz4 : compress toy Codec.lz4 (1 ∷ 2 ∷ []) ≡ ok (4 ∷ 1 ∷ 2 ∷ [])
unfolding compress
packed_by_lz4 = refl
