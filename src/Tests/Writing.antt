-- ===== src/Tests/Writing.antt =====
-- The writer's theorems on a sink that is a list of bytes.
use logjet.Base.{ℕ, ◌≡◌, refl, List, [], ◌∷◌, ◌++◌, All, Result, ok, err, some, arith}
use logjet.Error.{ErrorKind, io, other}
use logjet.Codec.{Codec, compress}
use logjet.Writer.{WriterConfig, LogjetWriter, flush_block, write_block, write_inner, u32_len}
use logjet.Writer.Failure.{IsBuffered, flush_block-IsBuffered}
use logjet.Reader.State.{ReaderConfig, with_config}
use logjet.Log.Block.{Block}
use logjet.Log.File.{Yields, records_of}
use logjet.Log.Sink.{IsSink}
use logjet.Log.Flushing.{IsFitting, IsSmall, IsStored}
use logjet.Log.Writing.{IsOrdered, write_log, write_log-IsStored}
use logjet.Log.RoundTrip.{next_record-write_log}
use logjet.Reader.State
use logjet.Tests.Fixtures.{
  toy, toy_laws, both, first_log-IsRecord, second_log-IsRecord, default_config-IsConfig,
  marker_tail, marker_tail_apart,
}

abbrev take_bytes : List ℕ → List ℕ → Result ErrorKind (Unit {0}) × List ℕ
take_bytes bytes buffer = (ok tt, buffer ++ bytes)

abbrev held : List ℕ → List ℕ
held buffer = buffer

buffer_sink : IsSink (List ℕ) take_bytes held
buffer_sink = record { succeeds = λ bytes w. refl; appends = λ bytes w. refl }

-- A block a record: the first record fills the target size.
abbrev small_blocks : WriterConfig
small_blocks = record {
  block_target_size = 4;
  codec = Codec.raw;
  sync_marker = State.default_config.sync_marker;
  block_alignment = 16;
}

small_blocks-IsFitting : IsFitting toy small_blocks State.default_config
unfolding compress
small_blocks-IsFitting = record {
  most = 16777216;
  most_ok = omega arith;
  target = omega arith;
  marker = refl;
  packs = λ bytes h. (bytes, refl, h);
}

both-IsSmall : All (IsSmall 16777216) both
both-IsSmall = (
  record { in_range = first_log-IsRecord; size = omega arith },
  (record { in_range = second_log-IsRecord; size = omega arith }, tt),
)

both-IsOrdered : IsOrdered 0 0 both
both-IsOrdered = (omega arith, (omega arith, (omega arith, (omega arith, tt))))

write_log-IsStored_example :
    (w : List ℕ) × (blocks : List Block) × (write_log toy take_bytes small_blocks both [] ≡ ok w)
    × IsStored toy
        (List ℕ)
        take_bytes
        held
        buffer_sink
        small_blocks
        State.default_config
        default_config-IsConfig
        small_blocks-IsFitting
        blocks
        w
    × (records_of blocks ≡ both)
unfolding small_blocks-IsFitting
write_log-IsStored_example =
    write_log-IsStored toy (List ℕ) take_bytes held buffer_sink small_blocks State.default_config
      default_config-IsConfig small_blocks-IsFitting both [] refl both-IsSmall both-IsOrdered

next_record-write_log_example :
    (w : List ℕ) × (write_log toy take_bytes small_blocks both [] ≡ ok w)
    × Yields toy (with_config (record { bytes = w; pos = 0 }) State.default_config) both
unfolding small_blocks-IsFitting
next_record-write_log_example =
    next_record-write_log toy toy_laws (List ℕ) take_bytes held buffer_sink small_blocks
      State.default_config default_config-IsConfig small_blocks-IsFitting both [] refl both-IsSmall
      both-IsOrdered (omega arith) (omega arith) 0x4f marker_tail refl marker_tail_apart (λ e. cc)

-- A sink that takes nothing.
abbrev refuse : List ℕ → List ℕ → Result ErrorKind (Unit {0}) × List ℕ
refuse bytes buffer = (err other, buffer)

abbrev filling_writer : LogjetWriter (List ℕ)
filling_writer = record {
  inner = [];
  config = small_blocks;
  payload_buf = 1 ∷ 0 ∷ 0 ∷ 1 ∷ 65 ∷ [];
  block_base_seq = some 5;
  block_base_ts_unix_ns = some 1000;
  record_count = 1;
}

refused : (flush_block toy refuse filling_writer).0 ≡ err (io other)
unfolding flush_block write_block write_inner compress u32_len
refused = refl

flush_block-IsBuffered_example : IsBuffered filling_writer (flush_block toy refuse filling_writer).1
flush_block-IsBuffered_example = flush_block-IsBuffered toy refuse filling_writer (io other) refused
