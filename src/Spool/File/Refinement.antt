-- ===== src/Spool/File/Refinement.antt =====
-- `FileSpool` of logjetd/src/spool.rs keeps what it promises, where no call fails.
use logjet.Base.{ℕ, ◌≡◌, List, map, ok, Bool, true}
use mathlib.Core.Option
use logjet.Record.{OwnedRecord}
use logjet.Codec.{Codec, Libraries, LibraryLaws}
use logjet.Reader.State.{default_config}
use logjet.Log.Flushing.{IsFitting}
use logjet.Spool.File.State.{FileSpool}
use logjet.Spool.File.Cursor.{to_wire}
use logjet.Spool.File.Sink.{quiet}
use logjet.Spool.File.Holds.{config_of, IsReadable, IsOnDisk}
use logjet.Spool.File.Appending.{Held}
use logjet.Spool.File.Newer.{newer}
use logjet.Spool.File.Calls.{SpoolCall, run, AbstractSpool, abstract_run}

module _ (lib : Libraries) (laws : LibraryLaws lib) (codec : Codec) (alignment capacity rounds : ℕ)
    (fitting : IsFitting lib (config_of codec alignment) default_config) where
  -- The spool on disk stands for this promise; records that were consumed may still be there.
  pub record Represents (seq ts : ℕ) (fresh : Bool) (m : AbstractSpool) (s : FileSpool)
      : Type 0 where
    pub left : List OwnedRecord
    pub held : Held lib codec alignment capacity rounds fitting seq ts left s
    pub same : newer m.consumed left ≡ m.records
    pub consumed : s.consumed_through_seq ≡ m.consumed
    pub on_disk :
        fresh ≡ true → IsOnDisk lib codec alignment capacity fitting held.now s.active_writer

  abbrev Readable : List OwnedRecord → Type 0
  Readable rs = IsReadable lib codec alignment rounds rs

  -- The calls succeed, return what they return of the promise, and leave a spool that stands for it.
  abbrev Refines : List SpoolCall → AbstractSpool → FileSpool → Type 0
  Refines calls m s =
      (s' : FileSpool) × (seq : ℕ) × (ts : ℕ) × (fresh : Bool) × (run lib capacity quiet rounds
          calls s
        ≡ (ok (map (Option.map to_wire) (abstract_run calls m).0), s'))
      × Represents seq ts fresh (abstract_run calls m).1 s'
