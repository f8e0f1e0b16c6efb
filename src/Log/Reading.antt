-- ===== src/Log/Reading.antt =====
-- Reading a whole file of src/writer.rs's blocks by `next_record` of src/reader.rs.
use logjet.Base.{
  ℕ, ◌+◌, ◌-◌, ◌<◌, ◌^◌, ◌≡◌, ◌≢◌, refl, sym, ap, ◌∙◌, subst, List, [], ◌∷◌, ◌++◌, append_assoc,
  append-nil, All, length, length-append, length-drop, length-replicate, replicate, some, true,
  arith, ok,
}
use logjet.Codec.{Codec, Libraries, LibraryLaws}
use logjet.Record.{OwnedRecord}
use logjet.Source.{ahead}
use logjet.Writer.{padding, block_bytes}
use logjet.Reader.State.{ReaderConfig, ReaderStats, LogjetReader}
use logjet.Reader.Sync.FirstSync.{first_sync}
use logjet.Reader.Scan.{scan_next_block, next_record}
use logjet.Log.Block.{Block, IsBlock, IsConfig, block_image}
use logjet.Log.Recovery.{IsPastBlock, IsBefore, scan_next_block-block}
use logjet.Log.File.{
  Yields, stop, more, take_pending-fits, records_of, uncompressed_of, first_sync-zeros,
  first_sync-marker, scan_next_block-eof,
}
use logjet.Log.Layout.{
  padding_zeros, file_bytes, length-block_image, next_record-pending, next_record-found,
  next_record-eof,
}

-- A block with records in it, in a file of such blocks.
pub record IsFilled (lib : Libraries) (codec : Codec) (rc : ReaderConfig) (b : Block) : Type 0 where
  pub block : IsBlock lib codec rc b
  pub filled : b.records ≢ []

-- No counter overflows while the reader goes through these blocks.
pub record HasBudget (pending : List OwnedRecord) (bs : List Block) (r : LogjetReader)
    : Type 0 where
  pub blocks : r.stats.blocks_ok + length (ahead r.inner) < 2 ^ 64
  pub bytes : r.stats.bytes_skipped + length (ahead r.inner) < 2 ^ 64
  pub compressed : r.stats.total_compressed_bytes + length (ahead r.inner) < 2 ^ 64
  pub uncompressed : r.stats.total_uncompressed_bytes + uncompressed_of bs < 2 ^ 64
  pub records : r.stats.records_ok + (length pending + length (records_of bs)) < 2 ^ 64

module _ (lib : Libraries) (laws : LibraryLaws lib) (codec : Codec) (alignment : ℕ)
    (rc : ReaderConfig) (config_ok : IsConfig rc) (head : ℕ) (tail : List ℕ)
    (em : rc.sync_marker ≡ head ∷ tail) (unique : All (λ m. m ≢ head) tail)
    (head_ne : head ≢ 0) where
  abbrev pub file : List Block → List ℕ
  file bs = file_bytes lib codec alignment rc.sync_marker bs

  -- The reader stands at zeros before these blocks.
  pub record StandsAt (k : ℕ) (pending : List OwnedRecord) (bs : List Block) (r : LogjetReader)
      : Type 0 where
    pub config : r.config ≡ rc
    pub waits : r.pending ≡ pending
    pub ahead_is : ahead r.inner ≡ replicate k 0 ++ file bs

  length-ahead : (r : LogjetReader) → length (ahead r.inner) ≡ length r.inner.bytes - r.inner.pos
  length-ahead r = length-drop r.inner.pos r.inner.bytes

  end_of_file :
      (k : ℕ) (r : LogjetReader) → StandsAt k [] [] r → HasBudget [] [] r → Yields lib r []
  unfolding file_bytes
  end_of_file k r at budget =
      let (r', scanned, _) =
        scan_next_block-eof lib head tail r
          (ap (λ (c : ReaderConfig). c.sync_marker) at.config ∙ em) unique
          (ap (first_sync (head ∷ tail)) (at.ahead_is ∙ append-nil (replicate k 0))
            ∙ first_sync-zeros head tail head_ne k)
          (omega (arith, budget.bytes, length-ahead r)) in
      stop (next_record-eof lib r r' at.waits scanned)

  first_at :
      (k : ℕ) (xs : List ℕ)
      → first_sync rc.sync_marker (replicate k 0 ++ (rc.sync_marker ++ xs))
        ≡ some (length (replicate {A = ℕ} k 0))
  first_at k xs =
      subst (λ m. first_sync m (replicate k 0 ++ (m ++ xs)) ≡ some (length (replicate {A = ℕ} k 0)))
        (sym em) (first_sync-marker head tail head_ne k xs)

  abbrev pad : Block → List ℕ
  pad b = padding alignment (length (block_image lib codec rc.sync_marker b))

  image_split :
      (b : Block) (ys : List ℕ)
      → (xs : List ℕ) × (block_image lib codec rc.sync_marker b ++ ys ≡ rc.sync_marker ++ xs)
  unfolding block_bytes
  image_split b ys = (_, append_assoc rc.sync_marker _ ys)

  module _ (k : ℕ) (b : Block) (bs : List Block) (r : LogjetReader)
      (at : StandsAt k [] (b ∷ bs) r) where
    ahead_split :
        ahead r.inner
        ≡ replicate k 0 ++ (block_image lib codec rc.sync_marker b ++ (pad b ++ file bs))
    unfolding file_bytes
    ahead_split =
        at.ahead_is
        ∙ ap (λ xs. replicate k 0 ++ xs)
            (append_assoc (block_image lib codec rc.sync_marker b) (pad b) (file bs))

    length_split :
        length (ahead r.inner) ≡ k + (8 + length b.compressed + 44) + length (pad b ++ file bs)
    length_split =
        ap length ahead_split
        ∙ omega (
          arith,
          length-append (replicate k 0)
              (block_image lib codec rc.sync_marker b ++ (pad b ++ file bs)),
          length-append (block_image lib codec rc.sync_marker b) (pad b ++ file bs),
          length-block_image lib codec alignment rc.sync_marker b,
          config_ok.marker_len,
          length-replicate {A = ℕ} k 0,
        )

    block-IsBefore :
        (block_ok : IsBlock lib codec rc b)
        → HasBudget [] (b ∷ bs) r
        → IsBefore lib laws codec rc b config_ok block_ok (replicate k 0) (pad b ++ file bs) r
    unfolding uncompressed_of
    block-IsBefore block_ok budget =
        let (xs, split) = image_split b (pad b ++ file bs) in
        record {
          config = at.config;
          ahead_is = ahead_split;
          first =
              ap (first_sync rc.sync_marker) (ahead_split ∙ ap (λ ys. replicate k 0 ++ ys) split)
              ∙ first_at k xs;
          room = record {
            blocks = omega (arith, budget.blocks, length_split);
            bytes = omega (arith, budget.bytes, length_split, length-replicate {A = ℕ} k 0);
            compressed = omega (arith, budget.compressed, length_split);
            uncompressed = omega (arith, budget.uncompressed);
          };
        }

    -- Behind the block, with its first record taken.
    module _ (block_ok : IsBlock lib codec rc b) (budget : HasBudget [] (b ∷ bs) r)
        (s : LogjetReader)
        (past : IsPastBlock (length (replicate {A = ℕ} k 0)) b (pad b ++ file bs) r s)
        (first : OwnedRecord) (rest : List OwnedRecord) (records : b.records ≡ first ∷ rest) where
      abbrev taken : LogjetReader
      taken = record s {
        pending = rest;
        stats = record s.stats { records_ok = s.stats.records_ok + 1 };
      }

      s_pending : s.pending ≡ first ∷ rest
      s_pending = past.pending ∙ ap (λ ps. ps ++ b.records) at.waits ∙ records

      taken-StandsAt :
          StandsAt
            (padding_zeros alignment (length (block_image lib codec rc.sync_marker b))).0
            rest
            bs
            taken
      taken-StandsAt = record {
        config = past.config ∙ at.config;
        waits = refl;
        ahead_is =
            past.ahead_is
            ∙ ap (λ zs. zs ++ file bs)
                (padding_zeros alignment (length (block_image lib codec rc.sync_marker b))).1;
      }

      taken-HasBudget : HasBudget rest bs taken
      unfolding uncompressed_of records_of
      taken-HasBudget =
          let ahead_len = ap length past.ahead_is in
          let st = past.stats in
          record {
            blocks = omega (
              arith,
              budget.blocks,
              length_split,
              ahead_len,
              ap (λ (t : ReaderStats). t.blocks_ok) st,
            );
            bytes = omega (
              arith,
              budget.bytes,
              length_split,
              ahead_len,
              ap (λ (t : ReaderStats). t.bytes_skipped) st,
              length-replicate {A = ℕ} k 0,
            );
            compressed = omega (
              arith,
              budget.compressed,
              length_split,
              ahead_len,
              ap (λ (t : ReaderStats). t.total_compressed_bytes) st,
            );
            uncompressed = omega (
              arith,
              budget.uncompressed,
              ap (λ (t : ReaderStats). t.total_uncompressed_bytes) st,
            );
            records = omega (
              arith,
              budget.records,
              ap (λ (t : ReaderStats). t.records_ok) st,
              length-append b.records (records_of bs),
              ap length records,
            );
          }

      next_record-block :
          scan_next_block lib r ≡ some (ok true, s)
          → next_record lib r ≡ some (ok (some first), taken)
      unfolding records_of
      next_record-block scanned =
          next_record-found lib first rest r s at.waits scanned s_pending
          ∙ ap some (take_pending-fits first rest s counted_fits)
        where
          counted_fits : s.stats.records_ok + 1 < 2 ^ 64
          counted_fits = omega (
            arith,
            budget.records,
            ap (λ (t : ReaderStats). t.records_ok) past.stats,
            length-append b.records (records_of bs),
            ap length records,
          )

  abbrev pending_taken : OwnedRecord → List OwnedRecord → LogjetReader → LogjetReader
  pending_taken first rest r = record r {
    pending = rest;
    stats = record r.stats { records_ok = r.stats.records_ok + 1 };
  }

  unfoldable nonempty :
      (rs : List OwnedRecord)
      → rs ≢ []
      → (first : OwnedRecord) × (rest : List OwnedRecord) × (rs ≡ first ∷ rest)
  nonempty [] h = absurd (h refl)
  nonempty (first ∷ rest) h = (first, rest, refl)

  -- From a reader that stands at zeros before these blocks with these records waiting, `next_record`
  -- returns the waiting records and then the blocks' records, each in order, and then the end of the
  -- file, if every block is valid and holds a record and no counter overflows. The marker has 8
  -- bytes, its first byte is not zero and does not come again in it.
  pub next_record-file :
      (bs : List Block) (k : ℕ) (ps : List OwnedRecord) (r : LogjetReader)
      → All (IsFilled lib codec rc) bs
      → StandsAt k ps bs r
      → HasBudget ps bs r
      → Yields lib r (ps ++ records_of bs)
  unfolding records_of
  next_record-file bs k (first ∷ rest) r filled at budget =
      let taken_one =
        next_record-pending lib first rest r at.waits
        ∙ ap some (take_pending-fits first rest r (omega (arith, budget.records))) in
      more taken_one (
        next_record-file bs k rest (pending_taken first rest r) filled
          (record { config = at.config; waits = refl; ahead_is = at.ahead_is })
          (record {
            blocks = budget.blocks;
            bytes = budget.bytes;
            compressed = budget.compressed;
            uncompressed = budget.uncompressed;
            records = omega (arith, budget.records);
          }))
  next_record-file [] k [] r filled at budget = end_of_file k r at budget
  next_record-file (b ∷ bs) k [] r (b_ok, filled) at budget =
      let (first, rest, records) = nonempty b.records b_ok.filled in
      let (s, scanned, past) =
        scan_next_block-block lib laws codec rc b config_ok b_ok.block (replicate k 0)
          (pad b ++ file bs) r (block-IsBefore k b bs r at b_ok.block budget) head tail em unique in
      subst (λ rs. Yields lib r (rs ++ records_of bs)) (sym records)
        (more (next_record-block k b bs r at b_ok.block budget s past first rest records scanned) (
          next_record-file bs _ rest (pending_taken first rest s) filled
            (taken-StandsAt k b bs r at b_ok.block budget s past first rest records)
            (taken-HasBudget k b bs r at b_ok.block budget s past first rest records)))
