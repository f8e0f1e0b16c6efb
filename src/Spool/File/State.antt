-- ===== src/Spool/File/State.antt =====
-- The state of `FileSpool` of logjetd/src/spool.rs, and the calls of it on the files. The file of the
-- segment that the writer has open stands in the writer, the directory's other segments in `older`,
-- in the order of their numbers: a segment is opened with a number above all others. Reserving disk
-- blocks for a file changes neither its length nor its bytes and has no counterpart.
use logjet.Base.{
  ℕ, Bool, false, ◌||◌, take, List, [], ◌∷◌, ◌++◌, Option, none, some, ◌==◌, if◌then◌else◌, length,
  Result, ok, err, map_err, checked_add, ok_or,
}
use logjet.Base.Exec.{Exec, lift, gets, modify, ◌>>=◌, ◌>>◌}
use logjet.Error.{ErrorKind, Error, invalid_data, not_found, other}
use logjet.Codec.{Codec}
use logjet.Writer
use logjet.Writer.{WriterConfig, LogjetWriter, default_config, flush_block}
use logjet.Spool.File.Buffered.{BufFile, new_file, tick, call, close}
use logjet.Spool.File.Records.{SpoolError, failed, to_io_error}

pub data FsyncPolicy : Type 0 where
  never block interval : FsyncPolicy

pub record SegmentFile : Type 0 where
  pub id : ℕ
  pub bytes : List ℕ

-- `open_segment_id` is the number of the file that `active_writer` writes to, none if the file has
-- been removed: it differs from `active_segment_id` when a new segment could not be opened.
-- `state_text` is what stands at `state_path`.
pub record FileSpool : Type 0 where
  pub stream_id : ℕ
  pub older : List SegmentFile
  pub open_segment_id : Option ℕ
  pub state_text : Option (List ℕ)
  pub active_segment_id : ℕ
  pub active_writer : LogjetWriter BufFile
  pub active_size_bytes : ℕ
  pub segment_target_bytes : ℕ
  pub fsync : FsyncPolicy
  pub codec : Codec
  pub block_alignment : ℕ
  pub max_total_bytes : ℕ
  pub consumed_through_seq : ℕ

abbrev pub SpoolExec : Type 0 → Type 0
SpoolExec A = Exec FileSpool SpoolError A

-- A file as it stands in the directory.
abbrev pub named : Option ℕ → List ℕ → List SegmentFile
named none bytes = []
named (some id) bytes = record { id = id; bytes = bytes } ∷ []

-- `list_segments` of the spool's directory.
abbrev pub segments_of : FileSpool → List SegmentFile
segments_of s = s.older ++ named s.open_segment_id s.active_writer.inner.bytes

abbrev pub writer_config : FileSpool → WriterConfig
writer_config s = record default_config { codec = s.codec; block_alignment = s.block_alignment }

abbrev pub set_inner : FileSpool → BufFile → FileSpool
set_inner s f = record s { active_writer = record s.active_writer { inner = f } }

-- `fs::metadata(path)?.len()`
unfoldable pub len_of : ℕ → List SegmentFile → Result SpoolError ℕ
len_of id [] = err (failed not_found)
len_of id (f ∷ fs) = if f.id == id then ok (length f.bytes) else len_of id fs

-- The file of this number goes from the directory.
unfoldable pub without : ℕ → List SegmentFile → List SegmentFile
without id [] = []
without id (f ∷ fs) = if f.id == id then fs else f ∷ without id fs

abbrev pub forget : ℕ → Option ℕ → Option ℕ
forget id none = none
forget id (some open_id) = if open_id == id then none else some open_id

-- `path.exists()`
abbrev pub exists : ℕ → List SegmentFile → Bool
exists id [] = false
exists id (f ∷ fs) = f.id == id || exists id fs

unfoldable pub next_id : ℕ → Result SpoolError ℕ
next_id id = ok_or (checked_add id 1) (failed invalid_data)

unfoldable pub refresh_active_size : SpoolExec (Unit {0})
refresh_active_size = do
  s ← gets (λ s. s)
  size ← lift (len_of s.active_segment_id (segments_of s))
  modify (λ s. record s { active_size_bytes = size })

abbrev pub unlinked : ℕ → FileSpool → FileSpool
unlinked id s = record s {
  older = without id s.older;
  open_segment_id = forget id s.open_segment_id;
}

module _ (outcome : ℕ → Option ℕ) where
  -- A call on the open file.
  unfoldable pub on_file : Exec BufFile ErrorKind (Unit {0}) → SpoolExec (Unit {0})
  on_file m s = let done = m s.active_writer.inner in (map_err failed done.0, set_inner s done.1)

  -- A call on the writer, with its errors turned into I/O errors.
  unfoldable pub on_writer : Exec (LogjetWriter BufFile) Error (Unit {0}) → SpoolExec (Unit {0})
  on_writer m s =
      let done = m s.active_writer in
      (map_err to_io_error done.0, record s { active_writer = done.1 })

  -- A call that creates a file, writes the state or syncs.
  abbrev pub on_disk : SpoolExec (Unit {0})
  on_disk = on_file (call outcome)

  -- The old writer is dropped, and the new one writes to a file of the active number.
  abbrev pub with_new_segment : FileSpool → FileSpool
  with_new_segment s =
      let closed = close outcome s.active_writer.inner in
      record s {
        older = s.older ++ named s.open_segment_id closed.bytes;
        open_segment_id = some s.active_segment_id;
        active_writer = Writer.with_config (new_file closed.calls) (writer_config s);
        active_size_bytes = 0;
      }

  unfoldable pub start_segment : SpoolExec (Unit {0})
  start_segment = do on_disk; modify with_new_segment

  -- `active_segment_id = active_segment_id.checked_add(1)?`
  unfoldable pub advance_id : SpoolExec (Unit {0})
  advance_id = do
    s ← gets (λ s. s)
    id ← lift (next_id s.active_segment_id)
    modify (λ s. record s { active_segment_id = id })

  -- `fs::remove_file(path)?`
  unfoldable pub remove_file : ℕ → SpoolExec (Unit {0})
  remove_file id = do on_disk; modify (unlinked id)

  abbrev pub end_text : List ℕ → Option ℕ → FileSpool → Result SpoolError (Unit {0}) × FileSpool
  end_text text none s = (ok tt, record s { state_text = some text })
  end_text text (some k) s = (err (failed other), record s { state_text = some (take k text) })

  -- `fs::write(path, text)`: the file is emptied and then written.
  unfoldable pub write_state : List ℕ → SpoolExec (Unit {0})
  write_state text = do
    on_disk
    s ← gets (λ s. s)
    modify (λ s. set_inner s (tick outcome s.active_writer.inner))
    end_text text (outcome s.active_writer.inner.calls)
