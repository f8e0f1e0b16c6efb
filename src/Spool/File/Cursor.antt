-- ===== src/Spool/File/Cursor.antt =====
-- Reading a `FileSpool` of logjetd/src/spool.rs: the replay cursor and the sequence bounds.
use logjet.Base.{
  ℕ, ◌⊎◌, inl, inr, List, [], ◌∷◌, Option, none, some, ltb, leb, if◌then◌else◌, max, Result, ok,
  err, map_ok, ◌>>=◌,
}
use logjet.Base.Exec.{Exec}
use logjet.Codec.{Libraries}
use logjet.Record.{OwnedRecord}
use logjet.Protocol.Frame.{WireRecord}
use logjet.Spool.File.Records.{SpoolError, reader_of, while_records}
use logjet.Spool.File.State.{SegmentFile, FileSpool, segments_of}

pub record FileReplayCursor : Type 0 where
  pub next_segment_id_hint : ℕ
  pub last_seq : ℕ

unfoldable pub replay_cursor_after : ℕ → FileReplayCursor
replay_cursor_after last_seq = record { next_segment_id_hint = 0; last_seq = last_seq }

abbrev pub to_wire : OwnedRecord → WireRecord
to_wire r = record {
  record_type = r.record_type;
  seq = r.seq;
  ts_unix_ns = r.ts_unix_ns;
  payload = r.payload;
}

-- Records up to the floor are passed over.
abbrev pub newer_than : ℕ → Unit {0} → OwnedRecord → Unit {0} ⊎ OwnedRecord
newer_than floor_seq done r = if leb r.seq floor_seq then inl tt else inr r

abbrev pub CursorExec : Type 0
CursorExec = Exec FileReplayCursor SpoolError (Option WireRecord)

abbrev pub found :
    SegmentFile → CursorExec → Result SpoolError (Unit {0} ⊎ OwnedRecord) → CursorExec
found f go_on (err e) c = (err e, c)
found f go_on (ok (inl _)) c = go_on (record c { next_segment_id_hint = f.id })
found f go_on (ok (inr r)) c =
    (ok (some (to_wire r)), record { next_segment_id_hint = f.id; last_seq = r.seq })

abbrev pub Bounds : Type 0
Bounds = Option ℕ × Option ℕ

abbrev pub or_seq : Option ℕ → ℕ → Option ℕ
or_seq none seq = some seq
or_seq (some first) seq = some first

abbrev pub widen : ℕ → Bounds → OwnedRecord → Bounds ⊎ Bounds
widen consumed bounds r =
    if leb r.seq consumed then inl bounds else inl (or_seq bounds.0 r.seq, some r.seq)

abbrev pub either : Bounds ⊎ Bounds → Bounds
either (inl b) = b
either (inr b) = b

abbrev pub both_of : Bounds → Option (ℕ × ℕ)
both_of (some first_seq, some last_seq) = some (first_seq, last_seq)
both_of _ = none

module _ (lib : Libraries) (rounds : ℕ) where
  -- The search through the segments; `floor_seq` was read before it.
  unfoldable pub search : ℕ → List SegmentFile → CursorExec
  search floor_seq [] c = (ok none, c)
  search floor_seq (f ∷ fs) c =
      let on = search floor_seq fs in
      if ltb f.id c.next_segment_id_hint
      then on c
      else found f on (while_records (newer_than floor_seq) lib rounds tt (reader_of f.bytes)) c

  unfoldable pub next_for_cursor : FileSpool → CursorExec
  next_for_cursor s c = search (max c.last_seq s.consumed_through_seq) (segments_of s) c

  unfoldable pub bounds_of : ℕ → List SegmentFile → Bounds → Result SpoolError Bounds
  bounds_of consumed [] bounds = ok bounds
  bounds_of consumed (f ∷ fs) bounds =
      map_ok either (while_records (widen consumed) lib rounds bounds (reader_of f.bytes))
      >>= bounds_of consumed fs

  unfoldable pub sequence_bounds : FileSpool → Result SpoolError (Option (ℕ × ℕ))
  sequence_bounds s = map_ok both_of (bounds_of s.consumed_through_seq (segments_of s) (none, none))
