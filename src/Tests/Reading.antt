-- ===== src/Tests/Reading.antt =====
-- The reader's theorems on the block of the fixtures, behind zeros and behind other bytes.
use logjet.Base.{
  ℕ, ◌≤◌, ◌≡◌, refl, List, [], ◌∷◌, ◌++◌, arith, length, length-append, replicate, ok, some, none,
  true, false, Result, Option,
}
use logjet.Codec.{Codec}
use logjet.Source.{ahead}
use logjet.Writer.{padding, block_bytes}
use logjet.Reader.State.{LogjetReader, default_config, zero_stats, seek_to}
use logjet.Reader.Steps.{moved}
use logjet.Error.{Error}
use logjet.Record.{OwnedRecord}
use logjet.Reader.Sync.{find_next_sync}
use logjet.Reader.Sync.FirstSync.{first_sync, plus}
use logjet.Reader.Sync.Search.{find_next_sync-first_sync}
use logjet.Reader.Parse.{parse_records}
use logjet.Reader.Totality.{scan_next_block_total, next_record_total, Returns}
use logjet.Log.File.{scan_next_block-eof}
use logjet.Log.Recovery.{IsBefore, IsPastBlock, scan_next_block-block}
use logjet.Reader.Block.{try_read_block_at}
use logjet.Reader.Scan.{scan_next_block, next_record}
use logjet.Log.Payload.{payload_of, parse_records-payload_of}
use logjet.Log.Block.{Block, block_image, try_read_block_at-block, past_block}
use logjet.Log.File.{Yields, records_of, uncompressed_of}
use logjet.Log.Layout.{stored, file_bytes, length-block_image}
use logjet.Log.Reading.{IsFilled, HasBudget, next_record-file}
use logjet.Tests.Fixtures.{
  toy, toy_laws, both, ext, block, block-IsBlock, default_config-IsConfig, both-IsAbove,
  payload_bound, marker_tail, marker_tail_apart,
}

abbrev marker : List ℕ
marker = default_config.sync_marker

abbrev blocks : List Block
blocks = block ∷ []

abbrev reader : LogjetReader
reader = record {
  inner = record { bytes = replicate 3 0 ++ file_bytes toy Codec.lz4 0 marker blocks; pos = 0 };
  config = default_config;
  stats = zero_stats;
  pending = [];
}

block-IsFilled : IsFilled toy Codec.lz4 default_config block
block-IsFilled = record { block = block-IsBlock; filled = λ e. cc }

file_bound : length (file_bytes toy Codec.lz4 0 marker blocks) ≤ 200
unfolding file_bytes padding
file_bound = omega (
  arith,
  length-append (stored toy Codec.lz4 0 marker block) [],
  length-append (block_image toy Codec.lz4 marker block) [],
  length-block_image toy Codec.lz4 0 marker block,
  payload_bound,
)

reader-HasBudget : HasBudget [] blocks reader
unfolding uncompressed_of records_of
reader-HasBudget = record {
  blocks = omega (arith, file_bound);
  bytes = omega (arith, file_bound);
  compressed = omega (arith, file_bound);
  uncompressed = omega (arith, payload_bound);
  records = omega arith;
}

next_record-file_example : Yields toy reader (records_of blocks)
next_record-file_example =
    next_record-file toy toy_laws Codec.lz4 0 default_config default_config-IsConfig 0x4f
      marker_tail refl marker_tail_apart (λ e. cc) blocks 3 [] reader (block-IsFilled, tt)
      (record { config = refl; waits = refl; ahead_is = refl }) reader-HasBudget

parse_records-payload_of_example : parse_records (payload_of ext both) 2 ext ≡ ok both
parse_records-payload_of_example =
    parse_records-payload_of ext both both-IsAbove (omega (arith, payload_bound))

scan_next_block_total_example : Returns reader (scan_next_block toy reader)
scan_next_block_total_example = scan_next_block_total toy reader

next_record_total_example :
    (out : Result Error (Option OwnedRecord) × LogjetReader) × (next_record toy reader ≡ some out)
next_record_total_example = next_record_total toy reader

find_next_sync-first_sync_example :
    (find_next_sync reader).0 ≡ ok (plus 0 (first_sync (0x4f ∷ marker_tail) (ahead reader.inner)))
find_next_sync-first_sync_example =
    find_next_sync-first_sync reader 0x4f marker_tail refl marker_tail_apart

abbrev image : List ℕ
image = block_image toy Codec.lz4 marker block

abbrev garbage : List ℕ
garbage = 0x4f ∷ 9 ∷ 0x4f ∷ []

abbrev damaged : LogjetReader
damaged = record {
  inner = record { bytes = garbage ++ (image ++ (1 ∷ [])); pos = 0 };
  config = default_config;
  stats = zero_stats;
  pending = [];
}

try_read_block_at-block_example : try_read_block_at toy 3 damaged ≡ (
  ok both,
  past_block toy toy_laws Codec.lz4 default_config block default_config-IsConfig block-IsBlock
      (moved 8 (seek_to 3 damaged)),
)
try_read_block_at-block_example =
    try_read_block_at-block toy toy_laws Codec.lz4 default_config block default_config-IsConfig
      block-IsBlock 3 damaged (1 ∷ []) refl refl (omega (arith, payload_bound))
      (omega (arith, payload_bound))

damaged-IsBefore :
    IsBefore toy toy_laws Codec.lz4 default_config block default_config-IsConfig block-IsBlock
      garbage
      (1 ∷ [])
      damaged
unfolding first_sync block_bytes
damaged-IsBefore = record {
  config = refl;
  ahead_is = refl;
  first = refl;
  room = record {
    blocks = omega arith;
    bytes = omega arith;
    compressed = omega (arith, payload_bound);
    uncompressed = omega (arith, payload_bound);
  };
}

scan_next_block-block_example :
    (r' : LogjetReader) × (scan_next_block toy damaged ≡ some (ok true, r'))
    × IsPastBlock 3 block (1 ∷ []) damaged r'
scan_next_block-block_example =
    scan_next_block-block toy toy_laws Codec.lz4 default_config block default_config-IsConfig
      block-IsBlock garbage (1 ∷ []) damaged damaged-IsBefore 0x4f marker_tail refl
      marker_tail_apart

abbrev blank : LogjetReader
blank = record damaged { inner = record { bytes = garbage; pos = 1 } }

scan_next_block-eof_example :
    (r' : LogjetReader) × (scan_next_block toy blank ≡ some (ok false, r'))
    × (r'.stats.bytes_skipped ≡ 2)
scan_next_block-eof_example =
    scan_next_block-eof toy 0x4f marker_tail blank refl marker_tail_apart nothing (omega arith)
  where
    nothing : first_sync (0x4f ∷ marker_tail) (ahead blank.inner) ≡ none
    nothing = unfold first_sync in refl
