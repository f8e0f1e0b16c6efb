-- ===== src/Reader/Scan.antt =====
-- `scan_next_block` and `next_record` of src/reader.rs.
use logjet.Base.{
  ℕ, zero, suc, ◌+◌, Bool, true, false, List, [], ◌∷◌, ◌++◌, Option, none, some, if◌then◌else◌,
  length, Result, ok, err, saturating_sub,
}
use logjet.Base.Exec.{Exec, pure, raise, gets, modify, ◌>>=◌, ◌>>◌}
use logjet.Error.{unexpected_eof, Error, io}
use logjet.Record.{OwnedRecord}
use logjet.Codec.{Libraries}
use logjet.Source.{ahead}
use logjet.Reader.State.{
  LogjetReader, seek_to, add_blocks_ok, add_blocks_bad, add_bytes_skipped, add_records_ok,
}
use logjet.Reader.Sync.{find_next_sync}
use logjet.Reader.Block.{try_read_block_at}

-- What a failed `try_read_block_at` leads to: only an I/O error other than a short read ends the scan.
unfoldable pub is_fatal : Error → Bool
is_fatal (io unexpected_eof) = false
is_fatal (io kind) = true
is_fatal _ = false

-- A rejected block is counted, and the scan goes on one byte behind its marker.
unfoldable pub reject : ℕ → Exec LogjetReader Error (Unit {0})
reject sync_start = do add_blocks_bad 1; modify (seek_to (sync_start + 1))

unfoldable pub accept : ℕ → ℕ → List OwnedRecord → Exec LogjetReader Error Bool
accept origin sync_start records = do
  add_blocks_ok 1
  add_bytes_skipped (saturating_sub sync_start origin)
  modify (λ r. record r { pending = r.pending ++ records })
  pure true

unfoldable pub at_eof : ℕ → Exec LogjetReader Error Bool
at_eof origin = do
  eof ← gets (λ r. length r.inner.bytes)
  modify (seek_to eof)
  add_bytes_skipped (saturating_sub eof origin)
  modify (seek_to eof)
  pure false

-- One round of the loop of `scan_next_block`: `none` means another round.
unfoldable pub after_block :
    ℕ → ℕ → Result Error (List OwnedRecord) → Exec LogjetReader Error (Option Bool)
after_block origin sync_start (ok records) = do
  done ← accept origin sync_start records
  pure (some done)
after_block origin sync_start (err e) =
    if is_fatal e then raise e else (do reject sync_start; pure none)

unfoldable pub take_pending :
    OwnedRecord → List OwnedRecord → Exec LogjetReader Error (Option OwnedRecord)
take_pending first rest = do
  modify (λ r. record r { pending = rest })
  add_records_ok 1
  pure (some first)

-- Whether the scan goes on behind one round.
abbrev pub end_round :
    (LogjetReader → Option (Result Error Bool × LogjetReader))
    → Result Error (Option Bool) × LogjetReader
    → Option (Result Error Bool × LogjetReader)
end_round go_on (err e, r) = some (err e, r)
end_round go_on (ok (some found), r) = some (ok found, r)
end_round go_on (ok none, r) = go_on r

-- Whether `next_record` goes on behind one scan.
abbrev pub end_scan :
    (LogjetReader → Option (Result Error (Option OwnedRecord) × LogjetReader))
    → Option (Result Error Bool × LogjetReader)
    → Option (Result Error (Option OwnedRecord) × LogjetReader)
end_scan go_on none = none
end_scan go_on (some (err e, r)) = some (err e, r)
end_scan go_on (some (ok false, r)) = some (ok none, r)
end_scan go_on (some (ok true, r)) = go_on r

module _ (lib : Libraries) where
  unfoldable pub after_sync : ℕ → Option ℕ → Exec LogjetReader Error (Option Bool)
  after_sync origin none r = (do done ← at_eof origin; pure (some done)) r
  after_sync origin (some sync_start) r =
      let read_result = try_read_block_at lib sync_start r in
      after_block origin sync_start read_result.0 read_result.1

  unfoldable pub scan_round : ℕ → Exec LogjetReader Error (Option Bool)
  scan_round origin = do found ← find_next_sync; after_sync origin found

  -- `none` means that the rounds ran out.
  unfoldable pub scan_loop : ℕ → ℕ → LogjetReader → Option (Result Error Bool × LogjetReader)
  scan_loop zero origin r = none
  scan_loop (suc rounds) origin r = end_round (scan_loop rounds origin) (scan_round origin r)

  -- Every round but the last moves the position on, so one round a byte and one more are enough.
  unfoldable pub scan_next_block : LogjetReader → Option (Result Error Bool × LogjetReader)
  scan_next_block r = scan_loop (suc (length (ahead r.inner))) r.inner.pos r

  unfoldable pub next_loop :
      ℕ
      → List OwnedRecord
      → LogjetReader
      → Option (Result Error (Option OwnedRecord) × LogjetReader)
  next_loop rounds (first ∷ rest) r = some (take_pending first rest r)
  next_loop zero [] r = none
  next_loop (suc rounds) [] r = end_scan (λ r'. next_loop rounds r'.pending r') (scan_next_block r)

  -- A block may hold no record; every block takes bytes, so the rounds are enough.
  unfoldable pub next_record :
      LogjetReader → Option (Result Error (Option OwnedRecord) × LogjetReader)
  next_record r = next_loop (suc (length (ahead r.inner))) r.pending r
