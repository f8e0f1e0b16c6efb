-- ===== src/Log/Writing.antt =====
-- A whole log: records pushed through src/writer.rs into a sink, and read back by src/reader.rs.
use logjet.Base.{
  ℕ, ◌+◌, ◌≤◌, ◌≡◌, refl, sym, ◌∙◌, subst, List, [], ◌∷◌, ◌++◌, append_assoc, append-nil, All,
  length, Result, ok, err,
}
use logjet.Base.Exec.{Exec, pure, ◌>>◌}
use logjet.Error.{ErrorKind, Error}
use logjet.Record.{OwnedRecord}
use logjet.Codec.{Libraries}
use logjet.Writer.{WriterConfig, LogjetWriter, with_config, push, flush_block, into_inner}
use logjet.Reader.State.{ReaderConfig}
use logjet.Log.Block.{Block, IsConfig}
use logjet.Log.File.{records_of}
use logjet.Log.Layout.{file_bytes}
use logjet.Log.Sink.{IsSink}
use logjet.Log.Flushing.{IsFitting, IsSmall, IsStored, closed, filling, flush_block-buffering}
use logjet.Log.Pushing.{Taken, push-HasTaken}

-- Neither the sequence numbers nor the times ever fall, from these on.
abbrev pub IsOrdered : ℕ → ℕ → List OwnedRecord → Type 0
IsOrdered seq ts [] = Unit
IsOrdered seq ts (r ∷ rs) = (seq ≤ r.seq) × ((ts ≤ r.ts_unix_ns) × IsOrdered r.seq r.ts_unix_ns rs)

-- The room that the encoded records take at most.
abbrev pub room_for : List OwnedRecord → ℕ
room_for [] = 0
room_for (r ∷ rs) = length r.payload + 31 + room_for rs

module _ (lib : Libraries) {W : Type 0}
    (write_all : List ℕ → W → Result ErrorKind (Unit {0}) × W) where
  -- One `push` a record.
  unfoldable pub push_all : List OwnedRecord → Exec (LogjetWriter W) Error (Unit {0})
  push_all [] = pure tt
  push_all (r ∷ rs) = do push lib write_all r.record_type r.seq r.ts_unix_ns r.payload; push_all rs

  abbrev finish : Result Error (Unit {0}) × LogjetWriter W → Result Error W
  finish (ok _, w) = into_inner lib write_all w
  finish (err e, w) = err e

  -- A new writer on the sink, the pushes, and `into_inner`.
  unfoldable pub write_log : WriterConfig → List OwnedRecord → W → Result Error W
  write_log wc records inner = finish (push_all records (with_config inner wc))

module _ (lib : Libraries) (W : Type 0) (write_all : List ℕ → W → Result ErrorKind (Unit {0}) × W)
    (contents : W → List ℕ) (sink : IsSink W write_all contents) (wc : WriterConfig)
    (rc : ReaderConfig) (config_ok : IsConfig rc) (fitting : IsFitting lib wc rc) where
  abbrev Stored : List Block → W → Type 0
  Stored blocks inner = IsStored lib W write_all contents sink wc rc config_ok fitting blocks inner

  push_all-HasTaken :
      (rs : List OwnedRecord) (seq ts : ℕ) (records : List OwnedRecord) (w : LogjetWriter W)
      → All (IsSmall fitting.most) rs
      → IsOrdered seq ts rs
      → Taken lib W write_all contents sink wc rc config_ok fitting seq ts records w
      → (w' : LogjetWriter W) × (seq' : ℕ) × (ts' : ℕ) × (push_all lib write_all rs w ≡ (ok tt, w'))
        × Taken lib W write_all contents sink wc rc config_ok fitting seq' ts' (records ++ rs) w'
  unfolding push_all
  push_all-HasTaken [] seq ts records w small ordered taken = (
    w,
    seq,
    ts,
    refl,
    subst (λ rs. Taken lib W write_all contents sink wc rc config_ok fitting seq ts rs w)
        (sym (append-nil records)) taken,
  )
  push_all-HasTaken (r ∷ rs) seq ts records w (r_small, small) (hs, (ht, ordered)) taken =
      let (w₁, pushed, taken₁) =
        push-HasTaken lib W write_all contents sink wc rc config_ok fitting seq ts records r w
          r_small hs ht taken in
      let (w', seq', ts', rest, taken') =
        push_all-HasTaken rs r.seq r.ts_unix_ns (records ++ (r ∷ [])) w₁ small ordered taken₁ in
      (
        w',
        seq',
        ts',
        rw pushed rest,
        subst (λ xs. Taken lib W write_all contents sink wc rc config_ok fitting seq' ts' xs w')
            (append_assoc records (r ∷ []) rs) taken',
      )

  into_inner-HasTaken :
      (seq ts : ℕ) (records : List OwnedRecord) (w : LogjetWriter W)
      → Taken lib W write_all contents sink wc rc config_ok fitting seq ts records w
      → (inner : W) × (blocks : List Block) × (into_inner lib write_all w ≡ ok inner)
        × Stored blocks inner
        × (records_of blocks ≡ records)
  unfolding into_inner
  into_inner-HasTaken seq ts records _ (closed blocks inner stored taken) =
      (inner, blocks, unfold flush_block with_config in refl, stored, taken)
  into_inner-HasTaken seq ts records _
        (filling blocks inner ext pending stored taken nonempty open_ok) =
      let (blocks', inner', flushed, stored', records') =
        flush_block-buffering lib W write_all contents sink wc rc config_ok fitting seq ts blocks
          inner ext pending stored nonempty open_ok in
      (inner', blocks', rw flushed (unfold with_config in refl), stored', records' ∙ taken)

  -- Pushing records in order into an empty sink and closing the writer succeeds, and leaves in the
  -- sink a file of valid blocks with records in each, whose records are the pushed ones in their
  -- order. The sink takes every write; for some size of payload not below the writer's target, the
  -- codec packs every payload up to it within the reader's limits, and every record fits into a block
  -- of it.
  pub write_log-IsStored :
      (rs : List OwnedRecord) (inner : W)
      → contents inner ≡ []
      → All (IsSmall fitting.most) rs
      → IsOrdered 0 0 rs
      → (w : W) × (blocks : List Block) × (write_log lib write_all wc rs inner ≡ ok w)
        × Stored blocks w
        × (records_of blocks ≡ rs)
  unfolding write_log
  write_log-IsStored rs inner empty small ordered =
      let (w', seq, ts, pushed, taken) =
        push_all-HasTaken rs 0 0 [] (with_config inner wc) small ordered (
          closed [] inner (record { contents_are = empty ∙ unfold file_bytes in refl; filled = tt })
            (unfold records_of in refl)) in
      let (w, blocks, closed_eq, stored, records) = into_inner-HasTaken seq ts rs w' taken in
      (w, blocks, rw pushed closed_eq, stored, records)
