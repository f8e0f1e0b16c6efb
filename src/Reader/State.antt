-- ===== src/Reader/State.antt =====
-- The state of `LogjetReader` in src/reader.rs, its reads and its counters.
use logjet.Base.{ℕ, List, [], String, none, some, Option, ok, err, map_err, checked_add}
use logjet.Base.Exec.{Exec}
use logjet.Error.{Error, io, numeric_overflow}
use logjet.Record.{OwnedRecord}
use logjet.Format.{default_max_block_size, default_sync_marker}
use logjet.Source.{Source, seek, read_exact}

pub record ReaderConfig : Type 0 where
  pub sync_marker : List ℕ
  pub max_compressed_len : ℕ
  pub max_uncompressed_len : ℕ

abbrev pub default_config : ReaderConfig
default_config = record {
  sync_marker = default_sync_marker;
  max_compressed_len = default_max_block_size;
  max_uncompressed_len = default_max_block_size;
}

pub record ReaderStats : Type 0 where
  pub blocks_ok : ℕ
  pub blocks_bad : ℕ
  pub bytes_skipped : ℕ
  pub records_ok : ℕ
  pub total_compressed_bytes : ℕ
  pub total_uncompressed_bytes : ℕ

abbrev pub zero_stats : ReaderStats
zero_stats = record {
  blocks_ok = 0;
  blocks_bad = 0;
  bytes_skipped = 0;
  records_ok = 0;
  total_compressed_bytes = 0;
  total_uncompressed_bytes = 0;
}

pub record LogjetReader : Type 0 where
  pub inner : Source
  pub config : ReaderConfig
  pub stats : ReaderStats
  pub pending : List OwnedRecord

unfoldable pub with_config : Source → ReaderConfig → LogjetReader
with_config inner config = record {
  inner = inner;
  config = config;
  stats = zero_stats;
  pending = [];
}

unfoldable pub new : Source → LogjetReader
unfolding with_config
new inner = with_config inner default_config

-- `self.inner.seek(SeekFrom::Start(pos))`
abbrev pub seek_to : ℕ → LogjetReader → LogjetReader
seek_to pos r = record r { inner = seek pos r.inner }

-- `self.inner.read_exact(buffer)?` for a buffer of `n` bytes.
unfoldable pub read : ℕ → Exec LogjetReader Error (List ℕ)
read n r = let got = read_exact n r.inner in (map_err io got.0, record r { inner = got.1 })

abbrev pub set_sum :
    (ℕ → ReaderStats → ReaderStats) → String → Option ℕ → Exec LogjetReader Error (Unit {0})
set_sum set_field name none r = (err (numeric_overflow name), r)
set_sum set_field name (some total) r = (ok tt, record r { stats = set_field total r.stats })

-- Adding to one counter of the statistics.
abbrev pub bump :
    (ReaderStats → ℕ)
    → (ℕ → ReaderStats → ReaderStats)
    → String
    → ℕ
    → Exec LogjetReader Error (Unit {0})
bump field set_field name n r = set_sum set_field name (checked_add (field r.stats) n) r

unfoldable pub add_blocks_ok : ℕ → Exec LogjetReader Error (Unit {0})
add_blocks_ok = bump (λ s. s.blocks_ok) (λ n s. record s { blocks_ok = n }) "blocks_ok"

unfoldable pub add_blocks_bad : ℕ → Exec LogjetReader Error (Unit {0})
add_blocks_bad = bump (λ s. s.blocks_bad) (λ n s. record s { blocks_bad = n }) "blocks_bad"

unfoldable pub add_bytes_skipped : ℕ → Exec LogjetReader Error (Unit {0})
add_bytes_skipped =
    bump (λ s. s.bytes_skipped) (λ n s. record s { bytes_skipped = n }) "bytes_skipped"

unfoldable pub add_records_ok : ℕ → Exec LogjetReader Error (Unit {0})
add_records_ok = bump (λ s. s.records_ok) (λ n s. record s { records_ok = n }) "records_ok"

unfoldable pub add_compressed : ℕ → Exec LogjetReader Error (Unit {0})
add_compressed =
    bump (λ s. s.total_compressed_bytes) (λ n s. record s { total_compressed_bytes = n })
      "total_compressed_bytes"

unfoldable pub add_uncompressed : ℕ → Exec LogjetReader Error (Unit {0})
add_uncompressed =
    bump (λ s. s.total_uncompressed_bytes) (λ n s. record s { total_uncompressed_bytes = n })
      "total_uncompressed_bytes"
