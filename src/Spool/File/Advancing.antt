-- ===== src/Spool/File/Advancing.antt =====
-- `advance_empty_active_segment` and `consume_through` of `FileSpool` (logjetd/src/spool.rs) where no
-- call fails and every record is on disk: exactly the consumed records may go.
use logjet.Base.{
  ℕ, ◌+◌, ◌<◌, ◌^◌, ◌≡◌, refl, sym, ap, ◌∙◌, subst, List, [], ◌∷◌, ◌++◌, append-nil, ok, arith,
  true,
}
use logjet.Record.{OwnedRecord}
use logjet.Codec.{Codec, Libraries, LibraryLaws}
use logjet.Writer.{LogjetWriter, is_empty, flush_block, with_config}
use logjet.Reader.State.{default_config}
use logjet.Log.Flushing.{IsFitting}
use logjet.Spool.File.Buffered.{BufFile, tick, call}
use logjet.Spool.File.State.{
  SegmentFile, FileSpool, segments_of, named, exists, without, forget, unlinked, set_inner, on_file,
  on_writer, remove_file,
}
use logjet.Spool.File.Operations.{flush_writer, advance_empty_active_segment}
use logjet.Spool.File.Sink.{quiet}
use logjet.Spool.File.Holds.{IsNumbered, config_of, HoldEach, Holds, IsOnDisk}
use logjet.Spool.File.Flushing.{IsOnDisk-Takes, IsOnDisk-tick}
use logjet.Spool.File.Rotating.{start_segment-Holds}
use logjet.Spool.File.Consuming.{without-middle, forget-other, IsNumbered-weaken}
use logjet.Spool.File.Cleaning.{InCleaning}

exists-middle :
    (xs : List SegmentFile) (f : SegmentFile) (ys : List SegmentFile)
    → exists f.id ((xs ++ (f ∷ [])) ++ ys) ≡ true
exists-middle [] f ys = ground arith
exists-middle (x ∷ xs) f ys = ground (arith, exists-middle xs f ys)

module _ (lib : Libraries) (laws : LibraryLaws lib) (codec : Codec) (alignment capacity rounds : ℕ)
    (fitting : IsFitting lib (config_of codec alignment) default_config) (seq ts : ℕ) where
  abbrev Settled : List OwnedRecord → LogjetWriter BufFile → Type 0
  Settled now w = IsOnDisk lib codec alignment capacity fitting now w

  flush_writer-idle :
      (now : List OwnedRecord) (s : FileSpool)
      → Settled now s.active_writer
      → flush_writer lib capacity quiet rounds s ≡ (ok tt, s)
  unfolding flush_writer on_writer flush_block with_config
  flush_writer-idle now s d =
      rw
        (let e : is_empty s.active_writer.payload_buf ≡ true =
            ap (λ w. is_empty w.payload_buf) d.idle in
          e)
        refl

  -- The open segment goes with its records, and an empty one is opened.
  pub advanced-Holds :
      (n : ℕ) (ks : List SegmentFile) (kss : List (List OwnedRecord)) (now : List OwnedRecord)
      (s : FileSpool)
      → InCleaning lib laws codec alignment capacity rounds fitting seq ts now n ks [] kss [] s
      → s.active_segment_id + 1 < 2 ^ 64
      → (s' : FileSpool) × (advance_empty_active_segment lib capacity quiet rounds s ≡ (ok tt, s'))
        × Holds lib codec alignment capacity fitting seq ts kss [] s'
        × Settled [] s'.active_writer
        × (s'.consumed_through_seq ≡ s.consumed_through_seq)
        × (s'.active_segment_id ≡ s.active_segment_id + 1)
  unfolding advance_empty_active_segment remove_file on_file call
  advanced-Holds n ks kss now s c fits =
      let (s₁, s₂, advanced, started, h, d, consumed, id, older) =
        start_segment-Holds lib codec alignment capacity rounds fitting seq ts (kss ++ []) now s
          c.holds c.on_disk fits in
      let file : SegmentFile = record {
        id = s.active_segment_id;
        bytes = s.active_writer.inner.bytes;
      } in
      let there : exists s.active_segment_id (segments_of s₂) ≡ true =
        ap
          (λ l.
            exists s.active_segment_id (l ++ named s₂.open_segment_id s₂.active_writer.inner.bytes))
          older
        ∙ exists-middle s.older file (named s₂.open_segment_id s₂.active_writer.inner.bytes) in
      let s' = unlinked s.active_segment_id (set_inner s₂ (tick quiet s₂.active_writer.inner)) in
      let numbered : IsNumbered 0 s₂.active_segment_id (s.older ++ (file ∷ [])) =
        subst (IsNumbered 0 s₂.active_segment_id) older h.numbered in
      let left : s'.older ≡ ks =
        ap (without s.active_segment_id) older
        ∙ without-middle 0 s₂.active_segment_id s.older file [] numbered
        ∙ append-nil s.older
        ∙ c.files
        ∙ append-nil ks in
      let d' = IsOnDisk-tick lib codec alignment capacity rounds fitting [] s₂.active_writer d in
      (
        s',
        rw (flush_writer-idle now s c.on_disk, advanced, started, there) refl,
        record {
          codec_is = h.codec_is;
          alignment_is = h.alignment_is;
          unlimited = h.unlimited;
          current =
              ap (forget s.active_segment_id) h.current
              ∙ forget-other s.active_segment_id s₂.active_segment_id (omega (arith, id));
          older = subst (λ l. HoldEach lib codec alignment l kss) (sym left) c.kept;
          numbered = subst (IsNumbered 0 s₂.active_segment_id) (sym left) (
              IsNumbered-weaken 0 0 s.active_segment_id s₂.active_segment_id ks (omega arith)
                (omega (arith, id))
                (subst (IsNumbered 0 s.active_segment_id) (c.files ∙ append-nil ks)
                  c.holds.numbered));
          taken =
              IsOnDisk-Takes lib codec alignment capacity rounds fitting seq ts []
                (record s₂.active_writer { inner = tick quiet s₂.active_writer.inner }) d';
          below = tt;
          topped = h.topped;
        },
        d',
        consumed,
        id,
      )
