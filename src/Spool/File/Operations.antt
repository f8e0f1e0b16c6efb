-- ===== src/Spool/File/Operations.antt =====
-- The operations of `FileSpool` of logjetd/src/spool.rs that change it.
use logjet.Base.{
  ℕ, ◌-◌, ◌+◌, Bool, true, false, ◌&&◌, ◌||◌, ◌⊎◌, inl, inr, List, [], ◌∷◌, Option, none, some, ltb,
  leb, ◌==◌, if◌then◌else◌, length, Result, ok, map_ok, saturating_sub,
}
use logjet.Base.Exec.{pure, lift, gets, modify, ◌>>=◌, ◌>>◌}
use logjet.Codec.{Libraries}
use logjet.Record.{OwnedRecord}
use logjet.Protocol.Frame.{WireRecord}
use logjet.Writer.{flush_block, push, pending_bytes}
use logjet.Replay.State.{to_string}
use logjet.Spool.File.Buffered.{flush_buf, set_len, write_all}
use logjet.Spool.File.Records.{SpoolError, reader_of, while_records}
use logjet.Spool.File.State.{
  FsyncPolicy, block, interval, SegmentFile, FileSpool, SpoolExec, segments_of, set_inner, on_file,
  on_writer, on_disk, refresh_active_size, start_segment, advance_id, remove_file, write_state,
  exists,
}

abbrev pub is_block : FsyncPolicy → Bool
is_block block = true
is_block _ = false

abbrev pub is_interval : FsyncPolicy → Bool
is_interval interval = true
is_interval _ = false

abbrev pub total_len : List SegmentFile → ℕ
total_len [] = 0
total_len (f ∷ fs) = length f.bytes + total_len fs

-- `max_seq = Some(record.seq)`: the last number, which is the largest where the numbers never fall.
abbrev pub note_seq : Option ℕ → OwnedRecord → Option ℕ ⊎ Option ℕ
note_seq max_seq r = inl (some r.seq)

abbrev pub either : Option ℕ ⊎ Option ℕ → Option ℕ
either (inl a) = a
either (inr a) = a

abbrev pub is_full : FileSpool → Bool
is_full s = leb s.segment_target_bytes s.active_size_bytes && ltb 0 s.active_size_bytes

-- `effective_size >= self.segment_target_bytes`
abbrev pub is_effectively_full : FileSpool → Bool
is_effectively_full s =
    leb s.segment_target_bytes (s.active_size_bytes + pending_bytes s.active_writer)

module _ (lib : Libraries) (capacity : ℕ) (outcome : ℕ → Option ℕ) (rounds : ℕ) where
  unfoldable pub segment_max_seq : List ℕ → Result SpoolError (Option ℕ)
  segment_max_seq bytes = map_ok either (while_records note_seq lib rounds none (reader_of bytes))

  unfoldable pub flush_writer : SpoolExec (Unit {0})
  flush_writer = on_writer outcome (flush_block lib (write_all outcome capacity))

  unfoldable pub flush_file : SpoolExec (Unit {0})
  flush_file = on_file outcome (flush_buf outcome)

  -- The loop of `enforce_retention`.
  unfoldable pub retain : List SegmentFile → ℕ → SpoolExec (Unit {0})
  retain [] excess = pure tt
  retain (f ∷ fs) excess =
      let on = (do remove_file outcome f.id; retain fs (saturating_sub excess (length f.bytes))) in
      do s ← gets (λ s. s); if (excess == 0) || (f.id == s.active_segment_id) then pure tt else on

  unfoldable pub enforce_retention : SpoolExec (Unit {0})
  enforce_retention = do
    s ← gets (λ s. s)
    let total = total_len (segments_of s)
    if (s.max_total_bytes == 0) || leb total s.max_total_bytes
        then pure tt
        else retain (segments_of s) (total - s.max_total_bytes)

  unfoldable pub rotate : SpoolExec (Unit {0})
  rotate = do
    flush_writer
    flush_file
    refresh_active_size
    modify (λ s. set_inner s (set_len outcome s.active_size_bytes s.active_writer.inner))
    advance_id outcome
    start_segment outcome
    enforce_retention

  abbrev pub rotate_if : (FileSpool → Bool) → SpoolExec (Unit {0})
  rotate_if full = do s ← gets (λ s. s); if full s then rotate else pure tt

  unfoldable pub append : WireRecord → SpoolExec (Unit {0})
  append r = do
    rotate_if is_full
    on_writer outcome
        (push lib (write_all outcome capacity) r.record_type r.seq r.ts_unix_ns r.payload)
    refresh_active_size
    rotate_if is_effectively_full

  unfoldable pub flush_pending : SpoolExec (Unit {0})
  flush_pending = do
    flush_writer
    flush_file
    s ← gets (λ s. s)
    if is_block s.fsync then on_disk outcome else pure tt
    refresh_active_size

  unfoldable pub fsync_if_interval : SpoolExec (Unit {0})
  fsync_if_interval = do
    s ← gets (λ s. s)
    if is_interval s.fsync then (do flush_file; on_disk outcome) else pure tt

  -- The open segment gives way to an empty one, and its file goes.
  unfoldable pub advance_empty_active_segment : SpoolExec (Unit {0})
  advance_empty_active_segment = do
    flush_writer
    old_id ← gets (λ s. s.active_segment_id)
    advance_id outcome
    start_segment outcome
    s ← gets (λ s. s)
    if exists old_id (segments_of s) then remove_file outcome old_id else pure tt

  -- A segment's turn in `cleanup_consumed_segments`, by its largest number.
  unfoldable pub drop_consumed : ℕ → Option ℕ → SpoolExec (Unit {0})
  drop_consumed id none = pure tt
  drop_consumed id (some max_seq) = do
    s ← gets (λ s. s)
    if ltb s.consumed_through_seq max_seq
        then pure tt
        else if id == s.active_segment_id
        then advance_empty_active_segment
        else remove_file outcome id

  unfoldable pub cleanup : List SegmentFile → SpoolExec (Unit {0})
  cleanup [] = pure tt
  cleanup (f ∷ fs) = do
    max_seq ← lift (segment_max_seq f.bytes)
    drop_consumed f.id max_seq
    cleanup fs

  unfoldable pub cleanup_consumed_segments : SpoolExec (Unit {0})
  cleanup_consumed_segments = do segments ← gets segments_of; cleanup segments

  unfoldable pub write_consumed_state : ℕ → SpoolExec (Unit {0})
  write_consumed_state seq = write_state outcome (to_string seq)

  unfoldable pub consume_newer : ℕ → SpoolExec (Unit {0})
  consume_newer seq = do
    modify (λ s. record s { consumed_through_seq = seq })
    write_consumed_state seq
    cleanup_consumed_segments

  unfoldable pub consume_through : ℕ → SpoolExec (Unit {0})
  consume_through seq s = if leb seq s.consumed_through_seq then (ok tt, s) else consume_newer seq s
