-- ===== src/Spool/File/Losing.antt =====
-- `consume_through` of `FileSpool` (logjetd/src/spool.rs) while the writer still has records that are
-- not on disk.
use logjet.Base.{
  ℕ, suc, ◌+◌, ◌≤◌, ◌<◌, ◌^◌, ◌≡◌, refl, ap, ap₂, ◌∙◌, List, [], ◌∷◌, ◌++◌, none, some, ok, arith,
  ltb, leb, ◌==◌, true, false, checked_add-fits,
}
use logjet.Record.{OwnedRecord}
use logjet.Codec.{Codec, Libraries, LibraryLaws}
use logjet.Writer.{LogjetWriter, with_config, flush_block}
use logjet.Reader.State.{default_config}
use logjet.Log.Flushing.{IsFitting, closed, filling}
use logjet.Replay.State.{to_string}
use logjet.Spool.File.Buffered.{BufFile, tick, call, close, write_all, new_file}
use logjet.Spool.File.State.{
  SegmentFile, FileSpool, segments_of, named, exists, without, set_inner, on_file, on_writer,
  next_id, advance_id, start_segment, remove_file, write_state, writer_config, with_new_segment,
  unlinked,
}
use logjet.Spool.File.Operations.{
  flush_writer, cleanup, drop_consumed, advance_empty_active_segment, cleanup_consumed_segments,
  write_consumed_state, consume_newer, consume_through,
}
use logjet.Spool.File.Sink.{quiet}
use logjet.Spool.File.Holds.{
  last_seq, config_of, HoldsFile, HoldEach, IsReadable, Holds, Takes, flush_block-Takes,
}
use logjet.Spool.File.Appending.{Held}
use logjet.Spool.File.Consuming.{forget-other}
use logjet.Spool.File.Empty.{nothing-Held}
use logjet.Spool.File.Newer.{segment_max_seq-last}

module _ (lib : Libraries) (laws : LibraryLaws lib) (codec : Codec) (alignment capacity rounds : ℕ)
    (fitting : IsFitting lib (config_of codec alignment) default_config) where
  -- The open segment goes, and with it what the writer has flushed into its file just before.
  advance-loses :
      (w : LogjetWriter BufFile) (s : FileSpool)
      → flush_block lib (write_all quiet capacity) s.active_writer ≡ (ok tt, w)
      → s.older ≡ []
      → s.open_segment_id ≡ some s.active_segment_id
      → s.active_segment_id + 1 < 2 ^ 64
      → (s' : FileSpool) × (advance_empty_active_segment lib capacity quiet rounds s ≡ (ok tt, s'))
        × (s'.older ≡ [])
        × (s'.open_segment_id ≡ some s'.active_segment_id)
        × ((calls : ℕ) × (s'.active_writer ≡ with_config (new_file calls) (writer_config s)))
        × (s'.codec ≡ s.codec)
        × (s'.block_alignment ≡ s.block_alignment)
        × (s'.max_total_bytes ≡ s.max_total_bytes)
  unfolding advance_empty_active_segment flush_writer on_writer advance_id next_id start_segment
      on_file call remove_file without with_config
  advance-loses w s flushed none_older current fits =
      let id = s.active_segment_id in
      let s₁ : FileSpool = record s { active_writer = w; active_segment_id = id + 1 } in
      let f = close quiet (tick quiet w.inner) in
      let s₂ = with_new_segment quiet (set_inner s₁ (tick quiet w.inner)) in
      let file : SegmentFile = record { id = id; bytes = f.bytes } in
      let same : (id == id) ≡ true = ground arith in
      let older : s₂.older ≡ file ∷ [] = ap₂ (λ fs o. fs ++ named o f.bytes) none_older current in
      let gone : without id (file ∷ []) ≡ [] = rw same refl in
      let there : exists id (segments_of s₂) ≡ true =
        ap (λ fs. exists id (fs ++ named s₂.open_segment_id s₂.active_writer.inner.bytes)) older
        ∙ rw same refl in
      let s' = unlinked id (set_inner s₂ (tick quiet s₂.active_writer.inner)) in
      (
        s',
        rw (flushed, checked_add-fits id 1 fits, there) refl,
        ap (without id) older ∙ gone,
        forget-other id (id + 1) (omega arith),
        (suc f.calls, refl),
        refl,
        refl,
        refl,
      )

  Takes-tick :
      (seq ts : ℕ) (now : List OwnedRecord) (w : LogjetWriter BufFile)
      → Takes lib codec alignment capacity fitting seq ts now w
      → Takes lib codec alignment capacity fitting seq ts now
          (record w { inner = tick quiet w.inner })
  unfolding with_config
  Takes-tick seq ts now _ (closed blocks inner stored taken) =
      closed blocks (tick quiet inner)
        (record { contents_are = stored.contents_are; filled = stored.filled }) taken
  Takes-tick seq ts now _ (filling blocks inner ext pending stored taken nonempty open_ok) =
      filling blocks (tick quiet inner) ext pending
        (record { contents_are = stored.contents_are; filled = stored.filled }) taken nonempty
        open_ok

  no_files : (fs : List SegmentFile) → HoldEach lib codec alignment fs [] → fs ≡ []
  no_files [] h = refl
  no_files (f ∷ fs) h = absurd h

  -- A loss: an acknowledgement of the last record on disk takes the records behind it along. Where
  -- the spool has one segment, and all the records that have reached its file are acknowledged, then
  -- `consume_through` succeeds and the spool holds nothing, whatever records its writer still had. No
  -- call to the files fails, the segment holds valid blocks, nothing limits the segments' total size,
  -- and the number is above what was consumed before. For some size of payload, not below the block
  -- size that the spool writes, the codec packs every payload up to it within the reader's default
  -- limits. The rounds are enough for the records on disk, and the reader's counters and the segment's
  -- number do not overflow.
  pub consume_through-loses :
      (seq ts n m : ℕ) (now flushed : List OwnedRecord) (s : FileSpool)
      → Holds lib codec alignment capacity fitting seq ts [] now s
      → HoldsFile lib codec alignment s.active_writer.inner.bytes flushed
      → IsReadable lib codec alignment rounds flushed
      → last_seq none flushed ≡ some m
      → m ≤ n
      → s.consumed_through_seq < n
      → s.active_segment_id + 1 < 2 ^ 64
      → (s' : FileSpool) × (consume_through lib capacity quiet rounds n s ≡ (ok tt, s'))
        × Held lib codec alignment capacity rounds fitting seq ts [] s'
  unfolding consume_through consume_newer write_consumed_state write_state on_file call
      cleanup_consumed_segments cleanup drop_consumed
  consume_through-loses seq ts n m now flushed s h on_disk readable last reached newer_seq fits =
      let f₁ = tick quiet (tick quiet s.active_writer.inner) in
      let s₁ : FileSpool = record (set_inner s f₁) {
        consumed_through_seq = n;
        state_text = some (to_string n);
      } in
      let none_older = no_files s.older h.older in
      let (w, flushed_eq, idle) =
        flush_block-Takes lib codec alignment capacity fitting seq ts now s₁.active_writer
          (Takes-tick seq ts now _ (Takes-tick seq ts now s.active_writer h.taken)) in
      let (s', advanced, older, current, (calls, fresh), is_codec, is_alignment, limit) =
        advance-loses w s₁ flushed_eq none_older h.current fits in
      let file : SegmentFile = record {
        id = s.active_segment_id;
        bytes = s.active_writer.inner.bytes;
      } in
      let listed : segments_of s ≡ file ∷ [] =
        ap₂ (λ fs o. fs ++ named o s.active_writer.inner.bytes) none_older h.current in
      (
        s',
        rw
            (
              (let not_yet : leb n s.consumed_through_seq ≡ false = ground arith in not_yet),
              listed,
              segment_max_seq-last lib laws codec alignment rounds capacity
                  s.active_writer.inner.bytes flushed on_disk readable,
              last,
              (let old : ltb n m ≡ false = ground arith in old),
              (let same : (s.active_segment_id == s.active_segment_id) ≡ true = ground arith in
                  same),
            )
            (rw advanced refl),
        nothing-Held lib laws codec alignment capacity rounds fitting seq ts calls s'
            (is_codec ∙ h.codec_is) (is_alignment ∙ h.alignment_is) (limit ∙ h.unlimited) older
            current
            (fresh ∙ ap (with_config (new_file calls)) (ap₂ config_of h.codec_is h.alignment_is)),
      )
