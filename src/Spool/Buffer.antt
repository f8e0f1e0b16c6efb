-- ===== src/Spool/Buffer.antt =====
-- `BufferSpool` of logjetd/src/spool.rs: the spool in memory.
use logjet.Base.{
  ℕ, zero, suc, ◌+◌, Bool, true, false, ◌&&◌, List, [], ◌∷◌, ◌++◌, Option, none, some, ltb, leb,
  if◌then◌else◌, length, take, drop, saturating_add, saturating_sub, get_elem?,
}
use logjet.Protocol.Frame.{WireRecord}

pub data BufferLimit : Type 0 where
  bytes messages : ℕ → BufferLimit

pub record BufferSpool : Type 0 where
  pub stream_id : ℕ
  pub limit : BufferLimit
  pub keep_messages : ℕ
  pub records : List WireRecord
  pub tail_bytes : ℕ

pub record BufferReplayCursor : Type 0 where
  pub next_index : ℕ
  pub last_seq : ℕ

abbrev pub record_size : WireRecord → ℕ
record_size r =
    saturating_add (saturating_add (saturating_add (saturating_add 1 8) 8) 4) (length r.payload)

-- `records.iter().skip(..).map(record_size).sum()`
abbrev pub total_size : List WireRecord → ℕ
total_size [] = 0
total_size (r ∷ rs) = record_size r + total_size rs

unfoldable pub tail_len : BufferSpool → ℕ
tail_len s = saturating_sub (length s.records) s.keep_messages

unfoldable pub over_limit : BufferSpool → Bool
over_limit s = elim s.limit [
  | bytes max_bytes ↦ ltb max_bytes s.tail_bytes
  | messages max_messages ↦ ltb max_messages (tail_len s)
]

-- `records.remove(drop_index)` with its effect on the tally.
unfoldable pub drop_at : List WireRecord → BufferSpool → BufferSpool
drop_at [] s = s
drop_at (r ∷ later) s = record s {
  records = take s.keep_messages s.records ++ later;
  tail_bytes = saturating_sub s.tail_bytes (record_size r);
}

-- Every round of the loop removes a record, so as many rounds as records are enough.
unfoldable pub enforce_loop : ℕ → BufferSpool → BufferSpool
enforce_loop zero s = s
enforce_loop (suc rounds) s =
    let later = enforce_loop rounds (drop_at (drop s.keep_messages s.records) s) in
    if over_limit s && ltb s.keep_messages (length s.records) then later else s

unfoldable pub enforce_limits : BufferSpool → BufferSpool
enforce_limits s = enforce_loop (length s.records) s

unfoldable pub append : WireRecord → BufferSpool → BufferSpool
append r s =
    let was_tail = leb s.keep_messages (length s.records) in
    enforce_limits (record s {
      records = s.records ++ (r ∷ []);
      tail_bytes = if was_tail then saturating_add s.tail_bytes (record_size r) else s.tail_bytes;
    })

abbrev pub pop_through : ℕ → List WireRecord → List WireRecord
pop_through seq [] = []
pop_through seq (r ∷ rs) = if leb r.seq seq then pop_through seq rs else r ∷ rs

-- The last step is `recalculate_tail_bytes`.
unfoldable pub consume_through : ℕ → BufferSpool → BufferSpool
consume_through seq s =
    let left = pop_through seq s.records in
    record s { records = left; tail_bytes = total_size (drop s.keep_messages left) }

abbrev pub one_later : Option ℕ → Option ℕ
one_later none = none
one_later (some index) = some (suc index)

-- `records.iter().position(|record| record.seq > last_seq)`
unfoldable pub position : ℕ → List WireRecord → Option ℕ
position last_seq [] = none
position last_seq (r ∷ rs) = if ltb last_seq r.seq then some 0 else one_later (position last_seq rs)

unfoldable pub replay_cursor_after : ℕ → BufferSpool → BufferReplayCursor
replay_cursor_after last_seq s = elim (position last_seq s.records) [
  | none ↦ record { next_index = length s.records; last_seq = last_seq }
  | some next_index ↦ record { next_index = next_index; last_seq = last_seq }
]

-- `index_still_aligned`
unfoldable pub aligned : List WireRecord → ℕ → ℕ → Bool
aligned records last_seq zero = true
aligned records last_seq (suc before) = elim (get_elem? records before) [
  | none ↦ false
  | some r ↦ leb r.seq last_seq
]

-- The record at the index, if it is newer.
abbrev pub newer : ℕ → Option WireRecord → Option WireRecord
newer last_seq none = none
newer last_seq (some r) = if ltb last_seq r.seq then some r else none

abbrev pub advance :
    BufferReplayCursor → ℕ → Option WireRecord → Option WireRecord × BufferReplayCursor
advance cursor index none = (none, cursor)
advance cursor index (some r) = (some r, record { next_index = index + 1; last_seq = r.seq })

-- `next_for_cursor` when the index does not serve.
abbrev pub search_next :
    List WireRecord → BufferReplayCursor → Option ℕ → Option WireRecord × BufferReplayCursor
search_next records cursor none = (none, cursor)
search_next records cursor (some index) = advance cursor index (get_elem? records index)

abbrev pub or_search :
    List WireRecord
    → BufferReplayCursor
    → Option WireRecord
    → Option WireRecord × BufferReplayCursor
or_search records cursor (some r) = advance cursor cursor.next_index (some r)
or_search records cursor none = search_next records cursor (position cursor.last_seq records)

unfoldable pub next_for_cursor :
    BufferReplayCursor → BufferSpool → Option WireRecord × BufferReplayCursor
next_for_cursor cursor s = or_search s.records cursor (
    if aligned s.records cursor.last_seq cursor.next_index
    then newer cursor.last_seq (get_elem? s.records cursor.next_index)
    else none)
