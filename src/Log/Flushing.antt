-- ===== src/Log/Flushing.antt =====
-- `flush_block` of src/writer.rs on an open block: what it adds to the blocks in the sink.
use logjet.Base.{
  ℕ, ◌+◌, ◌*◌, ◌≤◌, ◌≡◌, ◌≢◌, refl, sym, ap, ◌∙◌, List, [], ◌∷◌, ◌++◌, append_assoc, append-nil,
  length, length-append, Result, ok, arith, All, All-append, IsU64, false,
}
use logjet.Error.{ErrorKind}
use logjet.Record.{OwnedRecord, IsRecord}
use logjet.Codec.{Libraries, compress}
use logjet.Format.{BlockHeaderExt}
use logjet.Writer.{WriterConfig, LogjetWriter, with_config, is_empty, flush_block}
use logjet.Reader.State.{ReaderConfig}
use logjet.Log.Payload.{payload_of, encoded, length-encoded, IsAbove}
use logjet.Log.Block.{Block, IsConfig}
use logjet.Log.File.{records_of}
use logjet.Log.Layout.{stored, file_bytes}
use logjet.Log.Reading.{IsFilled}
use logjet.Log.Sink.{IsSink, buffering, write_block-buffering}

-- The reader's limits admit what the writer packs, and the codec does not fail on it: `most` bounds a
-- block's payload, and leaves room for what a codec may add to bytes that do not get smaller.
pub record IsFitting (lib : Libraries) (wc : WriterConfig) (rc : ReaderConfig) : Type 0 where
  pub most : ℕ
  pub most_ok : most ≤ rc.max_uncompressed_len
  pub target : wc.block_target_size ≤ most
  pub marker : wc.sync_marker ≡ rc.sync_marker
  pub packs :
      (bytes : List ℕ)
      → length bytes ≤ most
      → (packed : List ℕ) × (compress lib wc.codec bytes ≡ ok packed)
        × (length packed ≤ rc.max_compressed_len)

-- A record that fits by itself into a block of this size.
pub record IsSmall (most : ℕ) (r : OwnedRecord) : Type 0 where
  pub in_range : IsRecord r
  pub size : length r.payload + 31 ≤ most

pub length-payload_of :
    (ext : BlockHeaderExt) (rs : List OwnedRecord)
    → All (IsAbove ext) rs
    → 4 * length rs ≤ length (payload_of ext rs)
unfolding payload_of
length-payload_of ext [] h = omega arith
length-payload_of ext (r ∷ rs) (hr, hrs) = omega (
  arith,
  length-payload_of ext rs hrs,
  length-encoded ext r hr.in_range,
  length-append (encoded ext r) (payload_of ext rs),
)

pub is_empty-long : (xs : List ℕ) → 1 ≤ length xs → is_empty xs ≡ false
is_empty-long [] h = absurd (omega arith)
is_empty-long (x ∷ xs) h = refl

pub long_enough : (rs : List OwnedRecord) → rs ≢ [] → 1 ≤ length rs
long_enough [] h = absurd (h refl)
long_enough (r ∷ rs) h = omega arith

records_of-snoc :
    (bs : List Block) (b : Block) → records_of (bs ++ (b ∷ [])) ≡ records_of bs ++ b.records
unfolding records_of
records_of-snoc [] b = append-nil b.records
records_of-snoc (c ∷ bs) b =
    ap (λ rs. c.records ++ rs) (records_of-snoc bs b)
    ∙ sym (append_assoc c.records (records_of bs) b.records)

module _ (lib : Libraries) (wc : WriterConfig) where
  abbrev pub file : List Block → List ℕ
  file bs = file_bytes lib wc.codec wc.block_alignment wc.sync_marker bs

  file-snoc :
      (bs : List Block) (b : Block)
      → file (bs ++ (b ∷ [])) ≡ file bs ++ stored lib wc.codec wc.block_alignment wc.sync_marker b
  unfolding file_bytes
  file-snoc [] b = append-nil (stored lib wc.codec wc.block_alignment wc.sync_marker b)
  file-snoc (c ∷ bs) b =
      ap (λ xs. stored lib wc.codec wc.block_alignment wc.sync_marker c ++ xs) (file-snoc bs b)
      ∙ sym (append_assoc (stored lib wc.codec wc.block_alignment wc.sync_marker c) (file bs) _)

module _ (lib : Libraries) (W : Type 0) (write_all : List ℕ → W → Result ErrorKind (Unit {0}) × W)
    (contents : W → List ℕ) (sink : IsSink W write_all contents) (wc : WriterConfig)
    (rc : ReaderConfig) (config_ok : IsConfig rc) (fitting : IsFitting lib wc rc) where
  abbrev pub open_block : W → BlockHeaderExt → List OwnedRecord → LogjetWriter W
  open_block inner ext pending = buffering lib W write_all contents sink wc inner ext pending

  -- The open block of a writer whose records so far end at `seq` and `ts`.
  pub record IsOpen (seq ts : ℕ) (ext : BlockHeaderExt) (pending : List OwnedRecord) : Type 0 where
    pub base_seq : ext.base_seq ≤ seq
    pub base_ts : ext.base_ts_unix_ns ≤ ts
    pub seq_u64 : IsU64 seq
    pub ts_u64 : IsU64 ts
    pub above : All (IsAbove ext) pending
    pub fits : length (payload_of ext pending) ≤ fitting.most

  -- These blocks stand in the sink, one after the other.
  pub record IsStored (blocks : List Block) (inner : W) : Type 0 where
    pub contents_are : contents inner ≡ file lib wc blocks
    pub filled : All (IsFilled lib wc.codec rc) blocks

  -- The writer has taken these records, in this order: those of the blocks in the sink and those of
  -- the open block.
  pub data HasTaken (seq ts : ℕ) (records : List OwnedRecord) : LogjetWriter W → Type 0 where
    closed :
        (blocks : List Block) (inner : W)
        → IsStored blocks inner
        → records_of blocks ≡ records
        → HasTaken seq ts records (with_config inner wc)
    filling :
        (blocks : List Block) (inner : W) (ext : BlockHeaderExt) (pending : List OwnedRecord)
        → IsStored blocks inner
        → records_of blocks ++ pending ≡ records
        → pending ≢ []
        → IsOpen seq ts ext pending
        → HasTaken seq ts records (open_block inner ext pending)

  -- Flushing moves the open block into the sink.
  pub flush_block-buffering :
      (seq ts : ℕ) (blocks : List Block) (inner : W) (ext : BlockHeaderExt)
      (pending : List OwnedRecord)
      → IsStored blocks inner
      → pending ≢ []
      → IsOpen seq ts ext pending
      → (blocks' : List Block) × (inner' : W) × (flush_block lib write_all
            (open_block inner ext pending)
          ≡ (ok tt, with_config inner' wc))
        × IsStored blocks' inner'
        × (records_of blocks' ≡ records_of blocks ++ pending)
  unfolding flush_block
  flush_block-buffering seq ts blocks inner ext pending stored_ok nonempty open_ok =
      let (packed, packed_eq, packed_len) = fitting.packs (payload_of ext pending) open_ok.fits in
      let b : Block = record { ext = ext; records = pending; compressed = packed } in
      let sizes = length-payload_of ext pending open_ok.above in
      let (inner', written, grown) =
        write_block-buffering lib W write_all contents sink wc inner b packed_eq
          (omega (arith, open_ok.fits, fitting.most_ok, config_ok.uncompressed))
          (omega (arith, packed_len, config_ok.compressed)) in
      (
        blocks ++ (b ∷ []),
        inner',
        rw
            (is_empty-long (payload_of ext pending)
              (omega (arith, sizes, long_enough pending nonempty)))
            written,
        record {
          contents_are =
              grown
              ∙ ap (λ xs. xs ++ stored lib wc.codec wc.block_alignment wc.sync_marker b)
                  stored_ok.contents_are
              ∙ sym (file-snoc lib wc blocks b);
          filled = All-append (IsFilled lib wc.codec rc) blocks (b ∷ []) stored_ok.filled (
            record {
              block = record {
                base_seq = omega (arith, open_ok.base_seq, open_ok.seq_u64);
                base_ts = omega (arith, open_ok.base_ts, open_ok.ts_u64);
                above = open_ok.above;
                count = omega (arith, sizes, open_ok.fits, fitting.most_ok, config_ok.uncompressed);
                packed = packed_eq;
                payload_fits = omega (arith, open_ok.fits, fitting.most_ok);
                compressed_fits = packed_len;
              };
              filled = nonempty;
            },
            tt,
          );
        },
        records_of-snoc blocks b,
      )
