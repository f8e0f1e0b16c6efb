-- ===== src/Tests/Spool.antt =====
-- The spool's theorems on a spool of three records.
use logjet.Base.{List, some, none, ok, length, ◌⊎◌, ◌≤◌, ℕ, ◌≡◌, refl, false, [], ◌∷◌, arith}
use logjet.Record.{RecordType}
use logjet.Protocol.Frame.{WireRecord}
use logjet.Spool.Buffer.{
  messages, BufferSpool, BufferReplayCursor, append, over_limit, next_for_cursor,
}
use logjet.Spool.Pruning.{Segment, IsSplit, prune_named_segments, total_bytes}
use logjet.Spool.Kept.{IsNeeded, prune_named_segments_lem}
use logjet.Spool.Limits.{IsTrimmed, pushed, append-IsTrimmed}
use logjet.Spool.Cursor.{IsAscending, IsNext, next_for_cursor-IsNext}

abbrev numbered : ℕ → WireRecord
numbered seq = record {
  record_type = RecordType.logs;
  seq = seq;
  ts_unix_ns = 10;
  payload = 1 ∷ 2 ∷ [];
}

-- One kept record and two behind it, the most that the limit admits.
abbrev spool : BufferSpool
spool = record {
  stream_id = 7;
  limit = messages 2;
  keep_messages = 1;
  records = numbered 1 ∷ numbered 2 ∷ numbered 5 ∷ [];
  tail_bytes = 46;
}

append-IsTrimmed_example :
    IsTrimmed (pushed (numbered 6) spool) (append (numbered 6) spool)
    × (over_limit (append (numbered 6) spool) ≡ false)
append-IsTrimmed_example = append-IsTrimmed (numbered 6) spool refl (omega arith)

spool-IsAscending : IsAscending spool.records
spool-IsAscending = ((omega arith, (omega arith, tt)), ((omega arith, tt), (tt, tt)))

abbrev cursor : BufferReplayCursor
cursor = record { next_index = 2; last_seq = 2 }

next_for_cursor-IsNext_example : IsNext cursor spool.records (next_for_cursor cursor spool)
next_for_cursor-IsNext_example = next_for_cursor-IsNext spool spool-IsAscending cursor

-- Three segments of a file spool, the last one active.
abbrev segments : List Segment
segments =
    record { id = 3; size_bytes = 40 }
    ∷ record { id = 4; size_bytes = 50 }
    ∷ record { id = 5; size_bytes = 10 }
    ∷ []

prune_named_segments_lem_example :
    ((removed : List Segment) × (kept : List Segment) × (prune_named_segments segments (some 2) none
        ≡ ok removed)
      × IsSplit segments removed kept
      × (length kept ≡ 2))
    × ((removed : List Segment) × (kept : List Segment) × (prune_named_segments segments none
            (some 55)
          ≡ ok removed)
        × IsSplit segments removed kept
        × IsNeeded 55 kept
        × ((removed ≡ []) ⊎ (55 ≤ total_bytes kept)))
prune_named_segments_lem_example = prune_named_segments_lem 2 55 segments (omega arith)
