-- ===== src/Log/RoundTrip.antt =====
-- What is pushed through src/writer.rs comes back from `next_record` of src/reader.rs.
use logjet.Base.{
  ℕ, ◌+◌, ◌≤◌, ◌<◌, ◌^◌, ◌≡◌, ◌≢◌, refl, ap, ◌∙◌, subst, List, [], ◌∷◌, ◌++◌, All, length,
  length-append, Result, ok, arith, ◌-◌, ◌%◌, ◌&&◌, ltb, length-replicate, Bool-cases, inl, inr,
}
use logjet.Error.{ErrorKind}
use logjet.Record.{OwnedRecord}
use logjet.Codec.{Codec, Libraries, LibraryLaws}
use logjet.Format.{BlockHeaderExt}
use logjet.Writer.{WriterConfig, padding}
use logjet.Reader.State.{ReaderConfig, with_config}
use logjet.Log.Payload.{payload_of, encoded, length-encoded, IsAbove}
use logjet.Log.Block.{Block, IsConfig, block_image}
use logjet.Log.File.{Yields, records_of, uncompressed_of}
use logjet.Log.Layout.{file_bytes, length-block_image}
use logjet.Log.Reading.{IsFilled, next_record-file}
use logjet.Log.Sink.{IsSink}
use logjet.Log.Flushing.{IsFitting, IsSmall}
use logjet.Log.Writing.{IsOrdered, room_for, write_log, write_log-IsStored}

pub room_for-append : (xs ys : List OwnedRecord) → room_for (xs ++ ys) ≡ room_for xs + room_for ys
room_for-append [] ys = omega arith
room_for-append (x ∷ xs) ys = omega (arith, room_for-append xs ys)

length-payload_of-room :
    (ext : BlockHeaderExt) (rs : List OwnedRecord)
    → All (IsAbove ext) rs
    → length (payload_of ext rs) ≤ room_for rs
unfolding payload_of
length-payload_of-room ext [] h = omega arith
length-payload_of-room ext (r ∷ rs) (hr, hrs) = omega (
  arith,
  length-payload_of-room ext rs hrs,
  length-encoded ext r hr.in_range,
  length-append (encoded ext r) (payload_of ext rs),
)

uncompressed_of-room :
    (lib : Libraries) (codec : Codec) (rc : ReaderConfig) (bs : List Block)
    → All (IsFilled lib codec rc) bs
    → uncompressed_of bs ≤ room_for (records_of bs)
unfolding uncompressed_of records_of
uncompressed_of-room lib codec rc [] h = omega arith
uncompressed_of-room lib codec rc (b ∷ bs) (hb, hbs) = omega (
  arith,
  uncompressed_of-room lib codec rc bs hbs,
  length-payload_of-room b.ext b.records hb.block.above,
  room_for-append b.records (records_of bs),
)

-- The bytes of a log with at most `c` bytes a record.
abbrev pub file_room : ℕ → List OwnedRecord → ℕ
file_room c [] = 0
file_room c (r ∷ rs) = c + file_room c rs

pub file_room-append :
    (c : ℕ) (xs ys : List OwnedRecord) → file_room c (xs ++ ys) ≡ file_room c xs + file_room c ys
file_room-append c [] ys = omega arith
file_room-append c (x ∷ xs) ys = omega (arith, file_room-append c xs ys)

file_room-nonempty : (c : ℕ) (rs : List OwnedRecord) → rs ≢ [] → c ≤ file_room c rs
file_room-nonempty c [] h = absurd (h refl)
file_room-nonempty c (r ∷ rs) h = omega arith

length-padding : (alignment len : ℕ) → length (padding alignment len) ≤ alignment
unfolding padding
length-padding alignment len = elim (Bool-cases (ltb 0 alignment && ltb 0 (len % alignment))) [
  | inl pads ↦ rw pads (omega (arith, length-replicate {A = ℕ} (alignment - len % alignment) 0))
  | inr fits ↦ rw fits (omega arith)
]

-- A block takes at most the reader's limit, 52 bytes around it and the padding.
abbrev pub block_room : ReaderConfig → WriterConfig → ℕ
block_room rc wc = rc.max_compressed_len + 52 + wc.block_alignment

length-file_bytes :
    (lib : Libraries) (wc : WriterConfig) (rc : ReaderConfig) (bs : List Block)
    → length wc.sync_marker ≡ 8
    → All (IsFilled lib wc.codec rc) bs
    → length (file_bytes lib wc.codec wc.block_alignment wc.sync_marker bs)
      ≤ file_room (block_room rc wc) (records_of bs)
unfolding file_bytes records_of
length-file_bytes lib wc rc [] h filled = omega arith
length-file_bytes lib wc rc (b ∷ bs) h (hb, hbs) =
    let image = block_image lib wc.codec wc.sync_marker b in
    let zeroes = padding wc.block_alignment (length image) in
    let later = file_bytes lib wc.codec wc.block_alignment wc.sync_marker bs in
    omega (
      arith,
      h,
      length-append (image ++ zeroes) later,
      length-append image zeroes,
      length-block_image lib wc.codec wc.block_alignment wc.sync_marker b,
      length-padding wc.block_alignment (length image),
      hb.block.compressed_fits,
      file_room-nonempty (block_room rc wc) b.records hb.filled,
      file_room-append (block_room rc wc) b.records (records_of bs),
      length-file_bytes lib wc rc bs h hbs,
    )

pub length-room : (rs : List OwnedRecord) → length rs ≤ room_for rs
length-room [] = omega arith
length-room (r ∷ rs) = omega (arith, length-room rs)

-- A file of blocks gives its records: the sizes are bounded by the records'.
module _ (lib : Libraries) (laws : LibraryLaws lib) (wc : WriterConfig) (rc : ReaderConfig)
    (config_ok : IsConfig rc) (marker : wc.sync_marker ≡ rc.sync_marker) where
  pub next_record-blocks :
      (blocks : List Block) (bytes : List ℕ)
      → bytes ≡ file_bytes lib wc.codec wc.block_alignment wc.sync_marker blocks
      → All (IsFilled lib wc.codec rc) blocks
      → file_room (block_room rc wc) (records_of blocks) < 2 ^ 64
      → room_for (records_of blocks) < 2 ^ 64
      → (head : ℕ) (tail : List ℕ) → rc.sync_marker ≡ head ∷ tail
      → All (λ m. m ≢ head) tail
      → head ≢ 0
      → Yields lib (with_config (record { bytes = bytes; pos = 0 }) rc) (records_of blocks)
  unfolding with_config
  next_record-blocks blocks bytes stored filled short few head tail em unique head_ne =
      let sizes = uncompressed_of-room lib wc.codec rc blocks filled in
      let stored_len =
        length-file_bytes lib wc rc blocks (ap length marker ∙ config_ok.marker_len) filled in
      let len : length bytes < 2 ^ 64 = omega (arith, short, ap length stored, stored_len) in
      next_record-file lib laws wc.codec wc.block_alignment rc config_ok head tail em unique head_ne
        blocks 0 [] (with_config (record { bytes = bytes; pos = 0 }) rc) filled
        (record {
          config = refl;
          waits = refl;
          ahead_is = stored ∙ ap (λ m. file_bytes lib wc.codec wc.block_alignment m blocks) marker;
        })
        (record {
          blocks = omega (arith, len);
          bytes = omega (arith, len);
          compressed = omega (arith, len);
          uncompressed = omega (arith, few, sizes);
          records = omega (arith, few, length-room (records_of blocks));
        })

module _ (lib : Libraries) (laws : LibraryLaws lib) (W : Type 0)
    (write_all : List ℕ → W → Result ErrorKind (Unit {0}) × W) (contents : W → List ℕ)
    (sink : IsSink W write_all contents) (wc : WriterConfig) (rc : ReaderConfig)
    (config_ok : IsConfig rc) (fitting : IsFitting lib wc rc) where
  -- What was pushed in order into an empty sink comes back from `next_record` on the sink's
  -- contents, each record once and in the same order, and then the end of the file. The pushes and
  -- the closing of the writer succeed. The sink takes every write; for some size of payload not below
  -- the writer's target, the codec packs every payload up to it within the reader's limits, and every
  -- record fits into a block of it; and blocks of the largest size, one for each record, have fewer
  -- than 2 ^ 64 bytes together, packed or not. The marker has 8 bytes, its first byte is not zero and
  -- does not come again in it.
  pub next_record-write_log :
      (rs : List OwnedRecord) (inner : W)
      → contents inner ≡ []
      → All (IsSmall fitting.most) rs
      → IsOrdered 0 0 rs
      → file_room (block_room rc wc) rs < 2 ^ 64
      → room_for rs < 2 ^ 64
      → (head : ℕ) (tail : List ℕ) → rc.sync_marker ≡ head ∷ tail
      → All (λ m. m ≢ head) tail
      → head ≢ 0
      → (w : W) × (write_log lib write_all wc rs inner ≡ ok w)
        × Yields lib (with_config (record { bytes = contents w; pos = 0 }) rc) rs
  next_record-write_log rs inner empty small ordered short few head tail em unique head_ne =
      let (w, blocks, written, stored, records) =
        write_log-IsStored lib W write_all contents sink wc rc config_ok fitting rs inner empty
          small ordered in
      (
        w,
        written,
        subst (Yields lib (with_config (record { bytes = contents w; pos = 0 }) rc)) records (
            next_record-blocks lib laws wc rc config_ok fitting.marker blocks (contents w)
              stored.contents_are stored.filled
              (omega (arith, short, ap (file_room (block_room rc wc)) records))
              (omega (arith, few, ap room_for records)) head tail em unique head_ne),
      )
