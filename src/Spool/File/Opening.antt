-- ===== src/Spool/File/Opening.antt =====
-- `FileSpool::open` of logjetd/src/spool.rs on a directory: the segment files in the order of their
-- numbers, and the texts of the state file and of the stream identity, if they are there.
use logjet.Base.{
  ℕ, List, [], ◌∷◌, Option, none, some, ltb, if◌then◌else◌, length, Result, ok, err, map_ok,
  map_err, ok_or,
}
use logjet.Base.Exec.{Exec, pure, lift, ◌>>=◌, ◌>>◌}
use logjet.Error.{invalid_data}
use logjet.Codec.{Codec, Libraries}
use logjet.Writer.{default_config, with_config}
use logjet.Replay.State.{parse_u64}
use logjet.Replay.StateParse.{trim}
use logjet.Spool.File.Buffered.{BufFile, call}
use logjet.Spool.File.Records.{SpoolError, failed}
use logjet.Spool.File.State.{FsyncPolicy, SegmentFile, FileSpool, next_id}
use logjet.Spool.File.Operations.{cleanup_consumed_segments}

pub record FileConfig : Type 0 where
  pub segment_size_bytes : ℕ
  pub fsync : FsyncPolicy
  pub codec : Codec
  pub max_total_bytes : ℕ
  pub block_alignment : ℕ

pub record Directory : Type 0 where
  pub segments : List SegmentFile
  pub state_text : Option (List ℕ)
  pub stream_id_text : Option (List ℕ)

abbrev pub number_in : List ℕ → Result SpoolError ℕ
number_in text = ok_or (parse_u64 (trim text)) (failed invalid_data)

abbrev pub read_consumed_state : Option (List ℕ) → Result SpoolError ℕ
read_consumed_state none = ok 0
read_consumed_state (some text) = number_in text

-- The other segments, and the number and the bytes of the one that is opened.
pub record Choice : Type 0 where
  pub older : List SegmentFile
  pub id : ℕ
  pub bytes : List ℕ

abbrev pub behind : SegmentFile → ℕ → Choice
behind f id = record { older = f ∷ []; id = id; bytes = [] }

abbrev pub onto : SegmentFile → Choice → Choice
onto f c = record c { older = f ∷ c.older }

-- A last segment with room is opened again, and else one behind it.
unfoldable pub choose_active : ℕ → List SegmentFile → Result SpoolError Choice
choose_active segment_size_bytes [] = ok (record { older = []; id = 0; bytes = [] })
choose_active segment_size_bytes (f ∷ []) =
    if ltb (length f.bytes) segment_size_bytes
    then ok (record { older = []; id = f.id; bytes = f.bytes })
    else map_ok (behind f) (next_id f.id)
choose_active segment_size_bytes (f ∷ g ∷ fs) =
    map_ok (onto f) (choose_active segment_size_bytes (g ∷ fs))

-- The spool as it is built, before anything is cleaned up.
unfoldable pub built : FileConfig → Directory → ℕ → ℕ → BufFile → Choice → FileSpool
built config d consumed stream_id file c = record {
  stream_id = stream_id;
  older = c.older;
  open_segment_id = some c.id;
  state_text = d.state_text;
  active_segment_id = c.id;
  active_writer =
      with_config file
        (record default_config { codec = config.codec; block_alignment = config.block_alignment });
  active_size_bytes = length c.bytes;
  segment_target_bytes = config.segment_size_bytes;
  fsync = config.fsync;
  codec = config.codec;
  block_alignment = config.block_alignment;
  max_total_bytes = config.max_total_bytes;
  consumed_through_seq = consumed;
}

module _ (lib : Libraries) (capacity : ℕ) (outcome : ℕ → Option ℕ) (rounds : ℕ) where
  abbrev pub change_disk : Exec BufFile SpoolError (Unit {0})
  change_disk f = let made = call outcome f in (map_err failed made.0, made.1)

  -- `read_or_create_stream_id`, with the identity that would be generated.
  unfoldable pub read_or_create_stream_id : ℕ → Option (List ℕ) → Exec BufFile SpoolError ℕ
  read_or_create_stream_id generated (some text) f = (number_in text, f)
  read_or_create_stream_id generated none f =
      let written = call outcome f in
      (map_ok (λ _. generated) (map_err failed written.0), written.1)

  -- A file with these bytes is opened for appending.
  unfoldable pub open_file : List ℕ → Exec BufFile SpoolError (Unit {0})
  open_file bytes f =
      let opened = call outcome f in (map_err failed opened.0, record opened.1 { bytes = bytes })

  abbrev pub cleaned : FileSpool → Result SpoolError FileSpool
  cleaned s =
      let done = cleanup_consumed_segments lib capacity outcome rounds s in
      map_ok (λ _. done.1) done.0

  -- What `open` computes before the cleaning: the first call creates the directory.
  unfoldable pub build : FileConfig → ℕ → Directory → Exec BufFile SpoolError (ℕ × ℕ × Choice)
  build config generated d = do
    change_disk
    consumed ← lift (read_consumed_state d.state_text)
    stream_id ← read_or_create_stream_id generated d.stream_id_text
    c ← lift (choose_active config.segment_size_bytes d.segments)
    open_file c.bytes
    pure (consumed, stream_id, c)

  abbrev pub finish :
      FileConfig
      → Directory
      → Result SpoolError (ℕ × ℕ × Choice) × BufFile
      → Result SpoolError FileSpool
  finish config d (err e, f) = err e
  finish config d (ok (consumed, stream_id, c), f) = cleaned (built config d consumed stream_id f c)

  unfoldable pub open_spool : FileConfig → ℕ → Directory → ℕ → Result SpoolError FileSpool
  open_spool config generated d calls =
      finish config d (build config generated d (record { bytes = []; buffer = []; calls = calls }))
