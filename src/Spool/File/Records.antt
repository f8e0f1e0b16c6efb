-- ===== src/Spool/File/Records.antt =====
-- The loops of logjetd/src/spool.rs over the records of a segment file, `while let Some(record) =
-- reader.next_record()?`, with what each does with a record.
use logjet.Base.{ℕ, zero, suc, ◌⊎◌, inl, inr, List, Option, none, some, Result, ok, err}
use logjet.Error.{ErrorKind, Error, invalid_data}
use logjet.Record.{OwnedRecord}
use logjet.Codec.{Libraries}
use logjet.Reader.State.{LogjetReader, with_config, default_config}
use logjet.Reader.Scan.{next_record}

-- `unread` stands for a loop whose rounds ran out.
pub data SpoolError : Type 0 where
  failed : ErrorKind → SpoolError
  unread : SpoolError

-- `to_io_error`
abbrev pub to_io_error : Error → SpoolError
to_io_error e = failed invalid_data

-- `LogjetReader::with_config(BufReader::new(file), ReaderConfig::default())`
abbrev pub reader_of : List ℕ → LogjetReader
reader_of bytes = with_config (record { bytes = bytes; pos = 0 }) default_config

module _ {A B : Type 0} (step : A → OwnedRecord → A ⊎ B) where
  -- A step ends the loop with a result, or leads to the next record.
  abbrev pub after_step :
      (A → LogjetReader → Result SpoolError (A ⊎ B))
      → LogjetReader
      → A ⊎ B
      → Result SpoolError (A ⊎ B)
  after_step go_on r (inl a) = go_on a r
  after_step go_on r (inr b) = ok (inr b)

  abbrev pub after_read :
      (A → LogjetReader → Result SpoolError (A ⊎ B))
      → A
      → Option (Result Error (Option OwnedRecord) × LogjetReader)
      → Result SpoolError (A ⊎ B)
  after_read go_on a none = err unread
  after_read go_on a (some (err e, r)) = err (to_io_error e)
  after_read go_on a (some (ok none, r)) = ok (inl a)
  after_read go_on a (some (ok (some x), r)) = after_step go_on r (step a x)

  unfoldable pub while_records : Libraries → ℕ → A → LogjetReader → Result SpoolError (A ⊎ B)
  while_records lib zero a r = err unread
  while_records lib (suc rounds) a r = after_read (while_records lib rounds) a (next_record lib r)
