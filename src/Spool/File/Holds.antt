-- ===== src/Spool/File/Holds.antt =====
-- What a `FileSpool` holds (logjetd/src/spool.rs), where no call fails: the records of its segment
-- files and of its writer.
use logjet.Base.{
  ℕ, suc, ◌≤◌, ◌<◌, ◌^◌, ◌≡◌, ◌≢◌, refl, sym, ◌∙◌, subst, List, [], ◌∷◌, ◌++◌, All, Option, none,
  some, length, ok, arith,
}
use logjet.Record.{OwnedRecord}
use logjet.Codec.{Codec, Libraries, LibraryLaws}
use logjet.Writer
use logjet.Writer.{WriterConfig, LogjetWriter, with_config, flush_block}
use logjet.Reader.State.{default_config}
use logjet.Log.Block.{Block, IsConfig}
use logjet.Log.File.{records_of, Yields}
use logjet.Log.Layout.{file_bytes}
use logjet.Log.Reading.{IsFilled}
use logjet.Log.Flushing.{IsFitting, HasTaken, closed, filling, flush_block-buffering}
use logjet.Log.Writing.{room_for}
use logjet.Log.RoundTrip.{file_room, block_room, next_record-blocks}
use logjet.Spool.File.Buffered.{BufFile, write_all}
use logjet.Spool.File.Records.{reader_of}
use logjet.Spool.File.State.{SegmentFile, FileSpool}
use logjet.Spool.File.Sink.{quiet, contents, file-IsSink}

pub default_config-IsConfig : IsConfig default_config
default_config-IsConfig = record {
  marker_len = refl;
  uncompressed = omega arith;
  compressed = omega arith;
}

-- The default marker behind its first byte.
abbrev pub marker_tail : List ℕ
marker_tail = 0x54 ∷ 0x4c ∷ 0x50 ∷ 0x42 ∷ 0x4c ∷ 0x4b ∷ 0x21 ∷ []

marker_tail_apart : All (λ m. m ≢ 0x4f) marker_tail
marker_tail_apart = ground arith

-- The last number of a list, `before` if it is empty.
abbrev pub last_seq : Option ℕ → List OwnedRecord → Option ℕ
last_seq before [] = before
last_seq before (r ∷ rs) = last_seq (some r.seq) rs

-- The last number is the largest.
pub record IsTopped (rs : List OwnedRecord) : Type 0 where
  pub below : (m : ℕ) → last_seq none rs ≡ some m → All (λ r. r.seq ≤ m) rs

-- The numbers of the files rise from `low` on and stay below `high`.
abbrev pub IsNumbered : ℕ → ℕ → List SegmentFile → Type 0
IsNumbered low high [] = low ≤ high
IsNumbered low high (f ∷ fs) = (low ≤ f.id) × IsNumbered (suc f.id) high fs

abbrev pub joined : List (List OwnedRecord) → List OwnedRecord
joined [] = []
joined (rs ∷ rss) = rs ++ joined rss

-- The config that a spool gives its writers.
abbrev pub config_of : Codec → ℕ → WriterConfig
config_of codec alignment = record Writer.default_config {
  codec = codec;
  block_alignment = alignment;
}

module _ (lib : Libraries) (codec : Codec) (alignment : ℕ) where
  -- A file of blocks with these records.
  pub record HoldsFile (bytes : List ℕ) (records : List OwnedRecord) : Type 0 where
    pub blocks : List Block
    pub stored :
        bytes ≡ file_bytes lib codec alignment (config_of codec alignment).sync_marker blocks
    pub filled : All (IsFilled lib codec default_config) blocks
    pub records_are : records_of blocks ≡ records
    pub topped : IsTopped records

  -- Each file with its own records.
  abbrev pub HoldEach : List SegmentFile → List (List OwnedRecord) → Type 0
  HoldEach [] [] = Unit
  HoldEach (f ∷ fs) (rs ∷ rss) = HoldsFile f.bytes rs × HoldEach fs rss
  HoldEach _ _ = ⊥

  -- The bytes of the largest blocks and of the records stay within the reader's counters.
  pub record IsReadable (rounds : ℕ) (rs : List OwnedRecord) : Type 0 where
    pub short : file_room (block_room default_config (config_of codec alignment)) rs < 2 ^ 64
    pub few : room_for rs < 2 ^ 64
    pub fit : length rs < rounds

  pub HoldsFile-Yields :
      (bytes : List ℕ) (rs : List OwnedRecord)
      → LibraryLaws lib
      → HoldsFile bytes rs
      → file_room (block_room default_config (config_of codec alignment)) rs < 2 ^ 64
      → room_for rs < 2 ^ 64
      → Yields lib (reader_of bytes) rs
  HoldsFile-Yields bytes rs laws h short few = subst (Yields lib (reader_of bytes)) h.records_are (
      next_record-blocks lib laws (config_of codec alignment) default_config default_config-IsConfig
        refl h.blocks bytes h.stored h.filled
        (subst (λ xs. file_room (block_room default_config (config_of codec alignment)) xs < 2 ^ 64)
          (sym h.records_are) short)
        (subst (λ xs. room_for xs < 2 ^ 64) (sym h.records_are) few) 0x4f marker_tail refl
        marker_tail_apart (omega arith))

  module _ (capacity : ℕ) (fitting : IsFitting lib (config_of codec alignment) default_config) where
    -- The writer has taken these records, the last of them with these numbers at most.
    abbrev pub Takes : ℕ → ℕ → List OwnedRecord → LogjetWriter BufFile → Type 0
    Takes seq ts records w =
        HasTaken lib BufFile (write_all quiet capacity) contents (file-IsSink capacity)
          (config_of codec alignment) default_config default_config-IsConfig fitting seq ts records
          w

    -- No block is open, and the records are those of the file and the buffer.
    pub record IsIdle (records : List OwnedRecord) (w : LogjetWriter BufFile) : Type 0 where
      pub idle : w ≡ with_config w.inner (config_of codec alignment)
      pub blocks : List Block
      pub stored :
          contents w.inner
          ≡ file_bytes lib codec alignment (config_of codec alignment).sync_marker blocks
      pub filled : All (IsFilled lib codec default_config) blocks
      pub records_are : records_of blocks ≡ records

    pub flush_block-Takes :
        (seq ts : ℕ) (records : List OwnedRecord) (w : LogjetWriter BufFile)
        → Takes seq ts records w
        → (w' : LogjetWriter BufFile) × (flush_block lib (write_all quiet capacity) w ≡ (ok tt, w'))
          × IsIdle records w'
    flush_block-Takes seq ts records _ (closed blocks inner stored taken) = (
      with_config inner (config_of codec alignment),
      unfold flush_block with_config in refl,
      unfold with_config in
          record {
            idle = refl;
            blocks = blocks;
            stored = stored.contents_are;
            filled = stored.filled;
            records_are = taken;
          },
    )
    flush_block-Takes seq ts records _
          (filling blocks inner ext pending stored taken nonempty open_ok) =
        let (blocks', inner', flushed, stored', records') =
          flush_block-buffering lib BufFile (write_all quiet capacity) contents
            (file-IsSink capacity) (config_of codec alignment) default_config
            default_config-IsConfig fitting seq ts blocks inner ext pending stored nonempty
            open_ok in
        (
          with_config inner' (config_of codec alignment),
          flushed,
          unfold with_config in
              record {
                idle = refl;
                blocks = blocks';
                stored = stored'.contents_are;
                filled = stored'.filled;
                records_are = records' ∙ taken;
              },
        )

    pub IsIdle-Takes :
        (seq ts : ℕ) (records : List OwnedRecord) (w : LogjetWriter BufFile)
        → IsIdle records w
        → Takes seq ts records w
    IsIdle-Takes seq ts records w h = subst (Takes seq ts records) (sym h.idle) (
        closed h.blocks w.inner (record { contents_are = h.stored; filled = h.filled })
          h.records_are)

    -- The spool holds in its older files these records, and in the active segment those.
    pub record Holds (seq ts : ℕ) (olds : List (List OwnedRecord)) (now : List OwnedRecord)
        (s : FileSpool) : Type 0 where
      pub codec_is : s.codec ≡ codec
      pub alignment_is : s.block_alignment ≡ alignment
      pub unlimited : s.max_total_bytes ≡ 0
      pub current : s.open_segment_id ≡ some s.active_segment_id
      pub older : HoldEach s.older olds
      pub numbered : IsNumbered 0 s.active_segment_id s.older
      pub taken : Takes seq ts now s.active_writer
      pub below : All (λ r. r.seq ≤ seq) now
      pub topped : IsTopped now

    -- All that was appended stands in the active segment's file.
    pub record IsOnDisk (now : List OwnedRecord) (w : LogjetWriter BufFile) : Type 0 where
      pub idle : w ≡ with_config w.inner (config_of codec alignment)
      pub buffer : w.inner.buffer ≡ []
      pub file : HoldsFile w.inner.bytes now
