-- ===== src/Tests/Fixtures.antt =====
-- The data of the tests: concrete libraries, two records, and the block that holds them.
use logjet.Base.{
  ℕ, ◌≢◌, ◌+◌, ◌%◌, ◌^◌, ◌*◌, All, ◌≤◌, ◌++◌, refl, ◌⊎◌, inl, inr, List, [], ◌∷◌, String, arith,
  length, length-append,
}
use logjet.Codec.{Codec, Libraries, LibraryLaws, compress}
use logjet.Record.{OwnedRecord, IsRecord, RecordType}
use logjet.Format.{BlockHeaderExt}
use logjet.Reader.State.{default_config}
use logjet.Log.Payload.{payload_of, encoded, length-encoded, IsAbove}
use logjet.Log.Block.{Block, IsBlock, IsConfig}

abbrev sum_of : List ℕ → ℕ
sum_of [] = 1
sum_of (b ∷ bs) = b + 31 * sum_of bs

abbrev untag : ℕ → List ℕ → String ⊎ List ℕ
untag size [] = inl "empty input"
untag size (tag ∷ bytes) = inr bytes

-- A multiplicative checksum and two compressors that add a tag byte.
abbrev pub toy : Libraries
toy = record {
  crc32c = λ bytes. sum_of bytes % 2 ^ 32;
  lz4_compress = λ bytes. 4 ∷ bytes;
  lz4_decompress = λ bytes size. untag size bytes;
  zstd_compress = λ bytes. inr (40 ∷ bytes);
  zstd_decompress = λ bytes size. untag size bytes;
}

pub toy_laws : LibraryLaws toy
toy_laws = record {
  crc32c_u32 = λ bytes. omega arith;
  lz4_inverse = λ bytes. refl;
  zstd_inverse = λ bytes packed e. cc;
}

abbrev pub first_log : OwnedRecord
first_log = record {
  record_type = RecordType.logs;
  seq = 5;
  ts_unix_ns = 1000;
  payload = 104 ∷ 105 ∷ [];
}

abbrev pub second_log : OwnedRecord
second_log = record {
  record_type = RecordType.traces;
  seq = 300;
  ts_unix_ns = 1400;
  payload = 7 ∷ [];
}

abbrev pub both : List OwnedRecord
both = first_log ∷ second_log ∷ []

pub first_log-IsRecord : IsRecord first_log
first_log-IsRecord = record { seq = omega arith; ts_unix_ns = omega arith; payload = omega arith }

pub second_log-IsRecord : IsRecord second_log
second_log-IsRecord = record { seq = omega arith; ts_unix_ns = omega arith; payload = omega arith }

abbrev pub ext : BlockHeaderExt
ext = record { base_seq = 5; base_ts_unix_ns = 1000 }

pub both-IsAbove : All (IsAbove ext) both
both-IsAbove = (
  record { in_range = first_log-IsRecord; seq = omega arith; ts = omega arith },
  (record { in_range = second_log-IsRecord; seq = omega arith; ts = omega arith }, tt),
)

pub payload_bound : length (payload_of ext both) ≤ 100
unfolding payload_of
payload_bound = omega (
  arith,
  length-append (encoded ext first_log) (encoded ext second_log ++ []),
  length-append (encoded ext second_log) [],
  length-encoded ext first_log first_log-IsRecord,
  length-encoded ext second_log second_log-IsRecord,
)

abbrev pub block : Block
block = record { ext = ext; records = both; compressed = 4 ∷ payload_of ext both }

pub default_config-IsConfig : IsConfig default_config
default_config-IsConfig = record {
  marker_len = refl;
  uncompressed = omega arith;
  compressed = omega arith;
}

pub block-IsBlock : IsBlock toy Codec.lz4 default_config block
unfolding compress
block-IsBlock = record {
  base_seq = omega arith;
  base_ts = omega arith;
  above = both-IsAbove;
  count = omega arith;
  packed = refl;
  payload_fits = omega (arith, payload_bound);
  compressed_fits = omega (arith, payload_bound);
}

-- The default marker behind its first byte.
abbrev pub marker_tail : List ℕ
marker_tail = 0x54 ∷ 0x4c ∷ 0x50 ∷ 0x42 ∷ 0x4c ∷ 0x4b ∷ 0x21 ∷ []

pub marker_tail_apart : All (λ m. m ≢ 0x4f) marker_tail
marker_tail_apart = ground arith
