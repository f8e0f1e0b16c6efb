-- ===== src/Spool/File/Buffered.antt =====
-- `BufWriter<File>` as logjetd/src/spool.rs uses it: an open file and what is not yet written to it.
-- The outcome of every call that changes a file is a parameter.
use logjet.Base.{
  ℕ, suc, ◌-◌, List, [], ◌++◌, Option, none, some, ltb, leb, if◌then◌else◌, length, take, drop,
  replicate, Result, ok, err,
}
use logjet.Base.Exec.{Exec, pure, gets, modify, ◌>>=◌, ◌>>◌}
use logjet.Error.{ErrorKind, other}
use logjet.Writer.{is_empty}

-- `calls` counts the calls that change files, for the outcomes.
pub record BufFile : Type 0 where
  pub bytes : List ℕ
  pub buffer : List ℕ
  pub calls : ℕ

-- The file of a new segment, with nothing in it.
abbrev pub new_file : ℕ → BufFile
new_file calls = record { bytes = []; buffer = []; calls = calls }

-- `File::set_len`: a file is cut, or grows by zeros.
abbrev pub with_len : ℕ → List ℕ → List ℕ
with_len n bytes = take n bytes ++ replicate (n - length bytes) 0

-- `outcome n` is none if the call number `n` succeeds; if a write fails, `some k` has the number of
-- bytes that were written before.
module _ (outcome : ℕ → Option ℕ) where
  abbrev pub tick : BufFile → BufFile
  tick f = record f { calls = suc f.calls }

  abbrev pub end_write : List ℕ → BufFile → Option ℕ → Result ErrorKind (Unit {0}) × BufFile
  end_write bytes f none = (ok tt, record (tick f) { bytes = f.bytes ++ bytes })
  end_write bytes f (some k) = (err other, record (tick f) { bytes = f.bytes ++ take k bytes })

  -- `File::write_all` on a file opened for appending.
  unfoldable pub write_file : List ℕ → Exec BufFile ErrorKind (Unit {0})
  write_file bytes f = end_write bytes f (outcome f.calls)

  abbrev pub end_flush : BufFile → Option ℕ → Result ErrorKind (Unit {0}) × BufFile
  end_flush f none = (ok tt, record (tick f) { bytes = f.bytes ++ f.buffer; buffer = [] })
  end_flush f (some k) =
      (err other, record (tick f) { bytes = f.bytes ++ take k f.buffer; buffer = drop k f.buffer })

  -- The buffer goes to the file; what a failing write leaves stays buffered.
  unfoldable pub flush_buf : Exec BufFile ErrorKind (Unit {0})
  flush_buf f = if is_empty f.buffer then (ok tt, f) else end_flush f (outcome f.calls)

  abbrev pub end_call : Option ℕ → BufFile → Result ErrorKind (Unit {0}) × BufFile
  end_call none f = (ok tt, tick f)
  end_call (some k) f = (err other, tick f)

  -- A call that changes no file of the spool's, such as `sync_all`.
  unfoldable pub call : Exec BufFile ErrorKind (Unit {0})
  call f = end_call (outcome f.calls) f

  abbrev pub end_set_len : ℕ → BufFile → Option ℕ → BufFile
  end_set_len n f none = record (tick f) { bytes = with_len n f.bytes }
  end_set_len n f (some k) = tick f

  -- `let _ = file.set_len(n)`
  unfoldable pub set_len : ℕ → BufFile → BufFile
  set_len n f = end_set_len n f (outcome f.calls)

  -- `BufWriter::write_all`: what does not fit into the buffer goes behind it to the file.
  unfoldable pub write_all : ℕ → List ℕ → Exec BufFile ErrorKind (Unit {0})
  write_all capacity bytes = do
    f ← gets (λ f. f)
    if leb (length bytes) (capacity - length f.buffer) then pure tt else flush_buf
    if ltb (length bytes) capacity
        then modify (λ f. record f { buffer = f.buffer ++ bytes })
        else write_file bytes

  -- A `BufWriter` that is dropped writes its buffer, whatever comes of it.
  unfoldable pub close : BufFile → BufFile
  close f = (flush_buf f).1
