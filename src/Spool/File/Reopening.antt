-- ===== src/Spool/File/Reopening.antt =====
-- `FileSpool::open` of logjetd/src/spool.rs where no call fails: the spool stands for the records in
-- the directory's segments that are newer than the number in its state file.
use logjet.Base.{
  ℕ, suc, ◌+◌, ◌≤◌, ◌<◌, ◌^◌, ◌≡◌, refl, sym, ap, ap₂, ◌∙◌, subst, List, [], ◌∷◌, ◌++◌, All, Option,
  none, some, ok, arith, true, IsU64,
}
use logjet.Record.{OwnedRecord}
use logjet.Replay.State.{to_string}
use logjet.Replay.StateRoundTrip.{parse_u64-to_string, trim-to_string}
use logjet.Codec.{Codec, Libraries, LibraryLaws}
use logjet.Writer.{with_config}
use logjet.Reader.State.{default_config}
use logjet.Log.Flushing.{IsFitting}
use logjet.Spool.File.Buffered.{BufFile, call}
use logjet.Spool.File.State.{FileSpool}
use logjet.Spool.File.Opening.{
  FileConfig, Directory, Choice, number_in, read_consumed_state, built, read_or_create_stream_id,
  open_file, build, open_spool,
}
use logjet.Spool.File.Sink.{quiet}
use logjet.Spool.File.Holds.{
  IsTopped, IsNumbered, joined, config_of, HoldsFile, HoldEach, IsReadable, IsOnDisk,
}
use logjet.Spool.File.Flushing.{IsOnDisk-Takes}
use logjet.Spool.File.Rotating.{empty-IsOnDisk}
use logjet.Spool.File.Newer.{newer}
use logjet.Spool.File.Cleaning.{InCleaning}
use logjet.Spool.File.Acknowledging.{cleanup-HoldsNewer}
use logjet.Spool.File.Refinement.{Represents}
use logjet.Spool.File.Choosing.{choose_active-Chosen}

All-behind :
    (m : ℕ) (xs ys : List OwnedRecord) → All (λ r. r.seq ≤ m) (xs ++ ys) → All (λ r. r.seq ≤ m) ys
All-behind m [] ys h = h
All-behind m (x ∷ xs) ys h = All-behind m xs ys h.1

-- What the state file gives: nothing was consumed if it is not there.
abbrev pub IsSaved : ℕ → Option (List ℕ) → Type 0
IsSaved n none = n ≡ 0
IsSaved n (some text) = (text ≡ to_string n) × IsU64 n

-- The identity of the stream can be read where it is there.
abbrev pub IsIdentity : ℕ → Option (List ℕ) → Type 0
IsIdentity id none = Unit
IsIdentity id (some text) = (text ≡ to_string id) × IsU64 id

number_in-to_string : (n : ℕ) → IsU64 n → number_in (to_string n) ≡ ok n
number_in-to_string n h = rw (trim-to_string n, parse_u64-to_string n h) refl

read_consumed_state-saved :
    (n : ℕ) (text : Option (List ℕ)) → IsSaved n text → read_consumed_state text ≡ ok n
read_consumed_state-saved n none h = ap ok (sym h)
read_consumed_state-saved n (some text) (e, h) = rw e (number_in-to_string n h)

module _ (lib : Libraries) (laws : LibraryLaws lib) (codec : Codec) (alignment capacity rounds : ℕ)
    (fitting : IsFitting lib (config_of codec alignment) default_config) where
  -- The file before its bytes are known.
  abbrev start : ℕ → BufFile
  start calls = record { bytes = []; buffer = []; calls = calls }

  read_or_create_stream_id-quiet :
      (generated id : ℕ) (text : Option (List ℕ)) (f : BufFile)
      → IsIdentity id text
      → (id' : ℕ) × (calls : ℕ) × (read_or_create_stream_id lib capacity quiet rounds generated text
            f
          ≡ (ok id', record f { calls = calls }))
  unfolding read_or_create_stream_id call
  read_or_create_stream_id-quiet generated id none f h = (generated, suc f.calls, refl)
  read_or_create_stream_id-quiet generated id (some text) f (e, h) =
      (id, f.calls, rw (e, number_in-to_string id h) refl)

  built-IsOnDisk :
      (config : FileConfig) (d : Directory) (n id : ℕ) (c : Choice) (file : BufFile)
      (now : List OwnedRecord)
      → config.codec ≡ codec
      → config.block_alignment ≡ alignment
      → file.buffer ≡ []
      → HoldsFile lib codec alignment file.bytes now
      → IsOnDisk lib codec alignment capacity fitting now (built config d n id file c).active_writer
  unfolding built with_config
  built-IsOnDisk config d n id c file now is_codec is_alignment buffer holds = record {
    idle = ap (with_config file) (ap₂ config_of is_codec is_alignment);
    buffer = buffer;
    file = holds;
  }

  built-InCleaning :
      (config : FileConfig) (d : Directory) (n id : ℕ) (c : Choice) (file : BufFile)
      (olds : List (List OwnedRecord)) (now : List OwnedRecord) (seq ts : ℕ)
      → config.codec ≡ codec
      → config.block_alignment ≡ alignment
      → config.max_total_bytes ≡ 0
      → IsOnDisk lib codec alignment capacity fitting now (built config d n id file c).active_writer
      → HoldEach lib codec alignment c.older olds
      → IsNumbered 0 c.id c.older
      → IsTopped now
      → All (λ r. r.seq ≤ seq) now
      → InCleaning lib laws codec alignment capacity rounds fitting seq ts now n []
          (built config d n id file c).older
          []
          olds
          (built config d n id file c)
  unfolding built
  built-InCleaning config d n id c file olds now seq ts is_codec is_alignment unlimited on_disk
        older numbered topped below =
      record {
        consumed = refl;
        files = refl;
        holds = record {
          codec_is = is_codec;
          alignment_is = is_alignment;
          unlimited = unlimited;
          current = refl;
          older = older;
          numbered = numbered;
          taken =
              IsOnDisk-Takes lib codec alignment capacity rounds fitting seq ts now
                (built config d n id file c).active_writer on_disk;
          below = below;
          topped = topped;
        };
        on_disk = on_disk;
        kept = tt;
        later = older;
      }

  -- Opening a directory of intact segment files succeeds, and the spool stands for their records that
  -- are newer than the saved number; its active segment's number is at most one above the bound on
  -- theirs. No call to the files fails; the segments hold valid blocks of the codec and the alignment
  -- that the configuration asks for, with records in order, and have rising numbers; the state file and
  -- the stream's number are absent or can be read; and nothing limits the segments' total size. For some
  -- size of payload, not below the block size that the spool writes, the codec packs every payload up to
  -- it within the reader's default limits. The rounds are enough for the records, and the reader's
  -- counters and the segments' numbers do not overflow.
  pub open_spool-Represents :
      (config : FileConfig) (generated calls id : ℕ) (d : Directory) (n high seq ts : ℕ)
      (rss : List (List OwnedRecord))
      → config.codec ≡ codec
      → config.block_alignment ≡ alignment
      → config.max_total_bytes ≡ 0
      → IsSaved n d.state_text
      → IsIdentity id d.stream_id_text
      → HoldEach lib codec alignment d.segments rss
      → IsNumbered 0 high d.segments
      → high + 1 < 2 ^ 64
      → All (λ r. r.seq ≤ seq) (joined rss)
      → IsReadable lib codec alignment rounds (joined rss)
      → (s : FileSpool) × (open_spool lib capacity quiet rounds config generated d calls ≡ ok s)
        × Represents lib laws codec alignment capacity rounds fitting seq ts true
            (record { records = newer n (joined rss); consumed = n })
            s
        × (s.active_segment_id ≤ high + 1)
  unfolding open_spool build open_file call with_config built
  open_spool-Represents config generated calls id d n high seq ts rss is_codec is_alignment
        unlimited saved identity held numbered fits below readable =
      let (id', calls', named_id) =
        read_or_create_stream_id-quiet generated id d.stream_id_text (start (suc calls)) identity in
      let empty = (empty-IsOnDisk lib codec alignment capacity rounds fitting 0).file in
      let (c, chosen, h) =
        choose_active-Chosen lib codec alignment config.segment_size_bytes high d.segments rss empty
          held numbered (omega (arith, fits)) in
      let file : BufFile = record (start (suc calls')) { bytes = c.bytes } in
      let s₀ = built config d n id' file c in
      let on_disk : IsOnDisk lib codec alignment capacity fitting h.now s₀.active_writer =
        built-IsOnDisk config d n id' c file h.now is_codec is_alignment refl h.file in
      let cleaning =
        built-InCleaning config d n id' c file h.olds h.now seq ts is_codec is_alignment unlimited
          on_disk h.older h.numbered h.file.topped
          (All-behind seq (joined h.olds) h.now
            (subst (All (λ r. r.seq ≤ seq)) (sym h.records_are) below)) in
      let (s, cleaned_eq, kept, id_bound) =
        cleanup-HoldsNewer lib laws codec alignment capacity rounds fitting seq ts n h.olds h.now s₀
          cleaning (subst (IsReadable lib codec alignment rounds) (sym h.records_are) readable)
          (omega (arith, h.id, fits)) in
      (
        s,
        rw (read_consumed_state-saved n d.state_text saved, named_id, chosen) (rw cleaned_eq refl),
        record {
          left = kept.left;
          held = kept.held;
          same = kept.same ∙ ap (newer n) h.records_are;
          consumed = kept.consumed;
          on_disk = λ e. kept.on_disk;
        },
        omega (arith, id_bound, h.id),
      )
