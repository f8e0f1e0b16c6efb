-- ===== src/Log/Sink.antt =====
-- A sink whose `write_all` succeeds, under src/writer.rs: what `flush_block` adds to it.
use logjet.Base.{
  ℕ, ◌^◌, ◌≡◌, refl, sym, ap, ◌∙◌, List, [], ◌∷◌, ◌++◌, append_assoc, append-nil, length, Result,
  ok, some, lt→ltb, IsU32,
}
use logjet.Error.{ErrorKind}
use logjet.Record.{OwnedRecord}
use logjet.Codec.{Libraries, compress}
use logjet.Format.{BlockHeaderExt}
use logjet.Writer.{
  WriterConfig, LogjetWriter, with_config, u32_len, padding, write_inner, write_padding,
  write_block, reset_block_state,
}
use logjet.Log.Payload.{payload_of}
use logjet.Log.Block.{Block, block_image}
use logjet.Log.Layout.{stored}

-- A sink that takes every write, as a `Vec<u8>` does.
pub record IsSink (W : Type 0) (write_all : List ℕ → W → Result ErrorKind (Unit {0}) × W)
    (contents : W → List ℕ) : Type 0 where
  pub succeeds : (bytes : List ℕ) (w : W) → (write_all bytes w).0 ≡ ok tt
  pub appends : (bytes : List ℕ) (w : W) → contents (write_all bytes w).1 ≡ contents w ++ bytes

module _ (lib : Libraries) (W : Type 0) (write_all : List ℕ → W → Result ErrorKind (Unit {0}) × W)
    (contents : W → List ℕ) (sink : IsSink W write_all contents) (wc : WriterConfig) where
  -- The writer with these records in its open block.
  abbrev pub buffering : W → BlockHeaderExt → List OwnedRecord → LogjetWriter W
  buffering inner ext pending = record {
    inner = inner;
    config = wc;
    payload_buf = payload_of ext pending;
    block_base_seq = some ext.base_seq;
    block_base_ts_unix_ns = some ext.base_ts_unix_ns;
    record_count = length pending;
  }

  write_inner-sink :
      (bytes : List ℕ) (w : LogjetWriter W)
      → write_inner lib write_all bytes w
        ≡ (ok tt, record w { inner = (write_all bytes w.inner).1 })
  unfolding write_inner
  write_inner-sink bytes w = rw (sink.succeeds bytes w.inner)

  write_padding-sink :
      (bytes : List ℕ) (w : LogjetWriter W)
      → (inner' : W) × (write_padding lib write_all bytes w ≡ (ok tt, record w { inner = inner' }))
        × (contents inner' ≡ contents w.inner ++ bytes)
  unfolding write_padding
  write_padding-sink [] w = (w.inner, refl, sym (append-nil (contents w.inner)))
  write_padding-sink (b ∷ bytes) w = (
    (write_all (b ∷ bytes) w.inner).1,
    write_inner-sink (b ∷ bytes) w,
    sink.appends (b ∷ bytes) w.inner,
  )

  abbrev image : Block → List ℕ
  image b = block_image lib wc.codec wc.sync_marker b

  u32_len-fits : (field : _) (len : ℕ) → IsU32 len → u32_len field len ≡ ok len
  unfolding u32_len
  u32_len-fits field len h = rw (lt→ltb len (2 ^ 32) h)

  -- Laying out the open block appends its bytes and its padding, and closes it.
  pub write_block-buffering :
      (inner : W) (b : Block)
      → compress lib wc.codec (payload_of b.ext b.records) ≡ ok b.compressed
      → IsU32 (length (payload_of b.ext b.records))
      → IsU32 (length b.compressed)
      → (inner' : W) × (write_block lib write_all (buffering inner b.ext b.records)
          ≡ (ok tt, with_config inner' wc))
        × (contents inner'
            ≡ contents inner ++ stored lib wc.codec wc.block_alignment wc.sync_marker b)
  unfolding write_block reset_block_state with_config
  write_block-buffering inner b packed small packed_small =
      let laid : LogjetWriter W = record (buffering inner b.ext b.records) {
        inner = (write_all (image b) inner).1;
      } in
      let (inner', padded, grown) =
        write_padding-sink (padding wc.block_alignment (length (image b))) laid in
      (
        inner',
        rw packed (
            rw (u32_len-fits "uncompressed_len" (length (payload_of b.ext b.records)) small) (
              rw (u32_len-fits "compressed_len" (length b.compressed) packed_small)
                (rw (write_inner-sink (image b) (buffering inner b.ext b.records)) (rw padded)))),
        grown
            ∙ ap (λ xs. xs ++ padding wc.block_alignment (length (image b)))
                (sink.appends (image b) inner)
            ∙ append_assoc (contents inner) (image b) _,
      )
