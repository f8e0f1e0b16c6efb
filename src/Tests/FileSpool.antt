-- ===== src/Tests/FileSpool.antt =====
-- The file spool's theorems on a spool that takes two records.
use logjet.Base.{
  ℕ, ◌≡◌, ◌+◌, ◌≤◌, refl, List, [], ◌∷◌, none, some, ok, true, Bool, map, arith, append-nil, length,
  length-append, replicate,
}
use mathlib.Core.Option
use logjet.Codec.{Codec, compress}
use logjet.Format.{BlockHeaderExt}
use logjet.Log.Payload.{payload_of, encoded, length-encoded, IsAbove}
use logjet.Log.Block.{Block}
use logjet.Log.File.{records_of}
use logjet.Log.Layout.{file_bytes}
use logjet.Log.Reading.{IsFilled}
use logjet.Record.{OwnedRecord, IsRecord}
use logjet.Writer.{with_config}
use logjet.Reader.State.{default_config}
use logjet.Log.Flushing.{IsFitting, filling}
use logjet.Spool.File.Buffered.{new_file}
use logjet.Spool.File.State.{never, FileSpool, segments_of}
use logjet.Spool.File.Sink.{quiet}
use logjet.Spool.File.Holds.{config_of, HoldsFile, Holds}
use logjet.Spool.File.Refinement.{Represents}
use logjet.Spool.File.Calls.{
  SpoolCall, appending, flushing, next, consuming, abstract_run, AbstractSpool,
}
use logjet.Spool.File.Newer.{newer}
use logjet.Spool.File.Opening.{FileConfig, Directory, open_spool}
use logjet.Spool.File.Operations.{consume_through, enforce_retention}
use logjet.Spool.File.Appending.{Held}
use logjet.Spool.File.Reopening.{open_spool-Represents}
use logjet.Spool.File.Losing.{consume_through-loses}
use logjet.Spool.Retention.{IsRetained}
use logjet.Spool.File.Retaining.{sized, enforce_retention-Retains}
use logjet.Spool.File.Names.{
  segment_path, parse_segment_id, derive_base_stem, parse_segment_id-segment_path,
}
use logjet.Tests.Fixtures.{
  toy, toy_laws, first_log, second_log, first_log-IsRecord, second_log-IsRecord,
}

lz4-IsFitting : IsFitting toy (config_of Codec.lz4 0) default_config
unfolding compress
lz4-IsFitting = record {
  most = 16777215;
  most_ok = omega arith;
  target = omega arith;
  marker = refl;
  packs = λ bytes h. (4 ∷ bytes, refl, omega (arith, h));
}

abbrev empty_spool : FileSpool
empty_spool = record {
  stream_id = 7;
  older = [];
  open_segment_id = some 0;
  state_text = none;
  active_segment_id = 0;
  active_writer = with_config (new_file 0) (config_of Codec.lz4 0);
  active_size_bytes = 0;
  segment_target_bytes = 60;
  fsync = never;
  codec = Codec.lz4;
  block_alignment = 0;
  max_total_bytes = 0;
  consumed_through_seq = 0;
}

abbrev calls : List SpoolCall
calls = appending first_log ∷ appending second_log ∷ flushing ∷ next 0 ∷ consuming 5 ∷ next 0 ∷ []

abbrev nothing : AbstractSpool
nothing = record { records = []; consumed = 0 }

abbrev Stands : ℕ → ℕ → Bool → AbstractSpool → FileSpool → Type 0
Stands seq ts fresh m s = Represents toy toy_laws Codec.lz4 0 8192 10 lz4-IsFitting seq ts fresh m s

-- What the two looks find.
run_test : (abstract_run calls nothing).0 ≡ some first_log ∷ some second_log ∷ []
unfolding abstract_run newer
run_test = refl

abbrev ext_of : OwnedRecord → BlockHeaderExt
ext_of r = record { base_seq = r.seq; base_ts_unix_ns = r.ts_unix_ns }

-- The block of one record.
abbrev block_of : OwnedRecord → Block
block_of r = record {
  ext = ext_of r;
  records = r ∷ [];
  compressed = 4 ∷ payload_of (ext_of r) (r ∷ []);
}

first-IsAbove : IsAbove (ext_of first_log) first_log
first-IsAbove = record { in_range = first_log-IsRecord; seq = omega arith; ts = omega arith }

second-IsAbove : IsAbove (ext_of second_log) second_log
second-IsAbove = record { in_range = second_log-IsRecord; seq = omega arith; ts = omega arith }

payload_small :
    (r : OwnedRecord) → IsRecord r → length (payload_of (ext_of r) (r ∷ [])) ≤ length r.payload + 31
unfolding payload_of
payload_small r h =
    omega (arith, length-append (encoded (ext_of r) r) [], length-encoded (ext_of r) r h)

first_block-IsFilled : IsFilled toy Codec.lz4 default_config (block_of first_log)
unfolding compress
first_block-IsFilled = record {
  block = record {
    base_seq = omega arith;
    base_ts = omega arith;
    above = (first-IsAbove, tt);
    count = omega arith;
    packed = refl;
    payload_fits = omega (arith, payload_small first_log first_log-IsRecord);
    compressed_fits = omega (arith, payload_small first_log first_log-IsRecord);
  };
  filled = λ e. cc;
}

-- The bytes of the first record's block.
abbrev first_bytes : List ℕ
first_bytes = file_bytes toy Codec.lz4 0 default_config.sync_marker (block_of first_log ∷ [])

first_bytes-HoldsFile : HoldsFile toy Codec.lz4 0 first_bytes (first_log ∷ [])
unfolding records_of
first_bytes-HoldsFile = record {
  blocks = block_of first_log ∷ [];
  stored = refl;
  filled = (first_block-IsFilled, tt);
  records_are = refl;
  topped = record { below = λ m e. (ground arith, tt) };
}

-- The first record is on disk, and the second still in the writer.
abbrev half_flushed : FileSpool
half_flushed = record empty_spool {
  active_writer = record {
    inner = record { bytes = first_bytes; buffer = []; calls = 0 };
    config = config_of Codec.lz4 0;
    payload_buf = payload_of (ext_of second_log) (second_log ∷ []);
    block_base_seq = some 300;
    block_base_ts_unix_ns = some 1400;
    record_count = 1;
  };
}

half_flushed-Holds :
    Holds toy Codec.lz4 0 8192 lz4-IsFitting 300 1400 [] (first_log ∷ second_log ∷ []) half_flushed
unfolding records_of payload_of lz4-IsFitting
half_flushed-Holds = record {
  codec_is = refl;
  alignment_is = refl;
  unlimited = refl;
  current = refl;
  older = tt;
  numbered = omega arith;
  taken =
      filling (block_of first_log ∷ []) half_flushed.active_writer.inner (ext_of second_log)
        (second_log ∷ [])
        (record { contents_are = append-nil first_bytes; filled = (first_block-IsFilled, tt) }) refl
        (λ e. cc)
        (record {
          base_seq = omega arith;
          base_ts = omega arith;
          seq_u64 = omega arith;
          ts_u64 = omega arith;
          above = (second-IsAbove, tt);
          fits = omega (arith, payload_small second_log second_log-IsRecord);
        });
  below = (omega arith, (omega arith, tt));
  topped = record { below = λ m e. ground arith };
}

consume_through-loses_example :
    (s' : FileSpool) × (consume_through toy 8192 quiet 10 5 half_flushed ≡ (ok tt, s'))
    × Held toy Codec.lz4 0 8192 10 lz4-IsFitting 300 1400 [] s'
consume_through-loses_example =
    consume_through-loses toy toy_laws Codec.lz4 0 8192 10 lz4-IsFitting 300 1400 5 5
      (first_log ∷ second_log ∷ []) (first_log ∷ []) half_flushed half_flushed-Holds
      first_bytes-HoldsFile (record { short = omega arith; few = omega arith; fit = omega arith })
      refl (omega arith) (omega arith) (omega arith)

-- A directory with the first record in a segment.
abbrev directory : Directory
directory = record {
  segments = record { id = 2; bytes = first_bytes } ∷ [];
  state_text = none;
  stream_id_text = none;
}

abbrev file_config : FileConfig
file_config = record {
  segment_size_bytes = 1000;
  fsync = never;
  codec = Codec.lz4;
  max_total_bytes = 0;
  block_alignment = 0;
}

open_spool-Represents_example :
    (s : FileSpool) × (open_spool toy 8192 quiet 10 file_config 7 directory 0 ≡ ok s)
    × Stands 5 1000 true (record { records = newer 0 (first_log ∷ []); consumed = 0 }) s
    × (s.active_segment_id ≤ 4)
open_spool-Represents_example =
    open_spool-Represents toy toy_laws Codec.lz4 0 8192 10 lz4-IsFitting file_config 7 0 0 directory
      0 3 5 1000 ((first_log ∷ []) ∷ []) refl refl refl refl tt (first_bytes-HoldsFile, tt)
      (omega arith) (omega arith) (omega arith)
      (record { short = omega arith; few = omega arith; fit = omega arith })

-- "spool-12.logjet"
parse_segment_id-segment_path_example :
    (parse_segment_id
        (segment_path (115 ∷ 112 ∷ 111 ∷ 111 ∷ 108 ∷ []) 12)
        (115 ∷ 112 ∷ 111 ∷ 111 ∷ 108 ∷ [])
      ≡ some 12)
    × (derive_base_stem (segment_path (115 ∷ 112 ∷ 111 ∷ 111 ∷ 108 ∷ []) 0)
        ≡ 115 ∷ 112 ∷ 111 ∷ 111 ∷ 108 ∷ [])
parse_segment_id-segment_path_example =
    parse_segment_id-segment_path (115 ∷ 112 ∷ 111 ∷ 111 ∷ 108 ∷ []) 12 (omega arith)

-- Two segments of 40 bytes before the active one.
abbrev three_segments : FileSpool
three_segments = record empty_spool {
  older =
      record { id = 0; bytes = replicate 40 1 } ∷ record { id = 1; bytes = replicate 40 1 } ∷ [];
  open_segment_id = some 2;
  active_segment_id = 2;
  max_total_bytes = 50;
}

enforce_retention-Retains_example :
    (s' : FileSpool) × (enforce_retention toy 8192 quiet 10 three_segments ≡ (ok tt, s'))
    × IsRetained 50 2 (map sized (segments_of three_segments)) (map sized (segments_of s'))
enforce_retention-Retains_example =
    enforce_retention-Retains toy 8192 10 three_segments refl
      (omega arith, (omega arith, omega arith)) (omega arith)
