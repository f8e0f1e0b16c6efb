-- ===== src/Spool/File/Calls.antt =====
-- A run of calls on `FileSpool` of logjetd/src/spool.rs, and the spool that it promises: a list of records
-- and the number that has been consumed.
use logjet.Base.{ℕ, ◌≤◌, ◌<◌, ◌≡◌, List, [], ◌∷◌, ◌++◌, Option, Bool, true, false, max}
use logjet.Base.Exec.{pure, ◌>>=◌, ◌>>◌}
use logjet.Record.{OwnedRecord}
use logjet.Codec.{Libraries}
use logjet.Log.Flushing.{IsSmall}
use logjet.Protocol.Frame.{WireRecord}
use logjet.Spool.File.State.{SpoolExec}
use logjet.Spool.File.Operations.{append, flush_pending, consume_through}
use logjet.Spool.File.Cursor.{to_wire, replay_cursor_after, next_for_cursor}
use logjet.Spool.File.Newer.{newer, head}

-- A call on the spool: `next` asks a new cursor behind this number for its first record.
pub data SpoolCall : Type 0 where
  appending : OwnedRecord → SpoolCall
  flushing : SpoolCall
  next : ℕ → SpoolCall
  consuming : ℕ → SpoolCall

module _ (lib : Libraries) (capacity : ℕ) (outcome : ℕ → Option ℕ) (rounds : ℕ) where
  unfoldable pub next_after : ℕ → SpoolExec (Option WireRecord)
  next_after last_seq s = ((next_for_cursor lib rounds s (replay_cursor_after last_seq)).0, s)

  -- What the calls return: the records found.
  unfoldable pub run : List SpoolCall → SpoolExec (List (Option WireRecord))
  run [] = pure []
  run (appending r ∷ calls) = do append lib capacity outcome rounds (to_wire r); run calls
  run (flushing ∷ calls) = do flush_pending lib capacity outcome rounds; run calls
  run (consuming n ∷ calls) = do consume_through lib capacity outcome rounds n; run calls
  run (next n ∷ calls) = do r ← next_after n; rs ← run calls; pure (r ∷ rs)

-- The promise: the records that have not been consumed, in order, and the number consumed.
pub record AbstractSpool : Type 0 where
  pub records : List OwnedRecord
  pub consumed : ℕ

unfoldable pub abstract_run :
    List SpoolCall → AbstractSpool → List (Option OwnedRecord) × AbstractSpool
abstract_run [] m = ([], m)
abstract_run (appending r ∷ calls) m =
    abstract_run calls (record m { records = m.records ++ (r ∷ []) })
abstract_run (flushing ∷ calls) m = abstract_run calls m
abstract_run (consuming n ∷ calls) m =
    abstract_run calls (record { records = newer n m.records; consumed = max n m.consumed })
abstract_run (next n ∷ calls) m =
    let (found, m') = abstract_run calls m in (head (newer n m.records) ∷ found, m')

-- What the caller keeps to: records small enough for a block and newer than what has been consumed,
-- neither numbers nor times falling, and a flush between an append and the next look or
-- acknowledgement. `fresh` says that nothing was appended since the last flush.
abbrev pub IsRun : ℕ → ℕ → ℕ → ℕ → Bool → List SpoolCall → Type 0
IsRun most seq ts top fresh [] = Unit
IsRun most seq ts top fresh (appending r ∷ calls) =
    IsSmall most r
    × ((seq ≤ r.seq)
        × ((ts ≤ r.ts_unix_ns) × ((top < r.seq) × IsRun most r.seq r.ts_unix_ns top false calls)))
IsRun most seq ts top fresh (flushing ∷ calls) = IsRun most seq ts top true calls
IsRun most seq ts top fresh (next n ∷ calls) = (fresh ≡ true) × IsRun most seq ts top fresh calls
IsRun most seq ts top fresh (consuming n ∷ calls) =
    (fresh ≡ true) × IsRun most seq ts (max n top) fresh calls

abbrev pub appended : List SpoolCall → List OwnedRecord
appended [] = []
appended (appending r ∷ calls) = r ∷ appended calls
appended (flushing ∷ calls) = appended calls
appended (next n ∷ calls) = appended calls
appended (consuming n ∷ calls) = appended calls
