-- ===== src/Spool/File/Flushing.antt =====
-- `flush_pending` of `FileSpool` (logjetd/src/spool.rs) where no call fails: what the
-- segments hold afterwards.
use logjet.Base.{
  ℕ, suc, ◌-◌, ◌≤◌, ◌<◌, ◌≡◌, refl, sym, ap, ◌∙◌, List, [], ◌∷◌, ◌++◌, append-nil, All, some,
  length, take, take-append, ok, arith, ◌==◌, if◌then◌else◌, true, false, Bool-cases, inl, inr,
  Bool,
}
use logjet.Base.Exec.{pure}
use logjet.Record.{OwnedRecord}
use logjet.Codec.{Codec, Libraries}
use logjet.Writer.{LogjetWriter, with_config}
use logjet.Reader.State.{default_config}
use logjet.Log.Flushing.{IsFitting}
use logjet.Spool.File.Buffered.{BufFile, tick, with_len, call}
use logjet.Spool.File.State.{
  SegmentFile, FileSpool, segments_of, named, len_of, refresh_active_size, on_file, on_writer,
  on_disk,
}
use logjet.Spool.File.Operations.{flush_writer, flush_file, flush_pending, is_block}
use logjet.Spool.File.Sink.{quiet, flush_buf-quiet, IsWritten}
use logjet.Spool.File.Holds.{
  IsTopped, IsNumbered, config_of, Takes, IsIdle, flush_block-Takes, IsIdle-Takes, Holds, IsOnDisk,
}

len_of-last :
    (low id : ℕ) (bytes : List ℕ) (fs : List SegmentFile)
    → IsNumbered low id fs
    → len_of id (fs ++ (record { id = id; bytes = bytes } ∷ [])) ≡ ok (length bytes)
unfolding len_of
len_of-last low id bytes [] h = ground arith
len_of-last low id bytes (f ∷ fs) (hf, hfs) = elim (Bool-cases (f.id == id)) [
  | inl same ↦ absurd (apart (suc f.id) id f.id fs hfs (ground arith))
  | inr other ↦ rw other (len_of-last (suc f.id) id bytes fs hfs)
]
  where
    apart :
        (low high n : ℕ) (fs : List SegmentFile)
        → IsNumbered low high fs
        → (n ≡ high) × (n < low)
        → ⊥
    apart low high n [] h e = omega (arith, h, e.0, e.1)
    apart low high n (g ∷ gs) (hg, h) e = apart (suc g.id) high n gs h (e.0, omega (arith, e.1, hg))

pub segments_of-current :
    (s : FileSpool)
    → s.open_segment_id ≡ some s.active_segment_id
    → segments_of s
      ≡ s.older ++ (record { id = s.active_segment_id; bytes = s.active_writer.inner.bytes } ∷ [])
segments_of-current s e = ap (λ o. s.older ++ named o s.active_writer.inner.bytes) e

pub with_len-same : (bytes : List ℕ) → with_len (length bytes) bytes ≡ bytes
with_len-same bytes = rw (let e : length bytes - length bytes ≡ 0 = omega arith in e) (
    append-nil (take (length bytes) bytes)
    ∙ ap (take (length bytes)) (sym (append-nil bytes))
    ∙ take-append bytes [])

module _ (lib : Libraries) (codec : Codec) (alignment capacity rounds : ℕ)
    (fitting : IsFitting lib (config_of codec alignment) default_config) where
  abbrev pub H : ℕ → ℕ → List (List OwnedRecord) → List OwnedRecord → FileSpool → Type 0
  H seq ts olds now s = Holds lib codec alignment capacity fitting seq ts olds now s

  -- The spool with another writer that has taken the same records.
  pub Holds-writer :
      (seq ts seq' ts' : ℕ) (olds : List (List OwnedRecord)) (now now' : List OwnedRecord)
      (s : FileSpool) (w : LogjetWriter BufFile)
      → H seq ts olds now s
      → Takes lib codec alignment capacity fitting seq' ts' now' w
      → All (λ r. r.seq ≤ seq') now'
      → IsTopped now'
      → H seq' ts' olds now' (record s { active_writer = w })
  Holds-writer seq ts seq' ts' olds now now' s w h taken below topped = record {
    codec_is = h.codec_is;
    alignment_is = h.alignment_is;
    unlimited = h.unlimited;
    current = h.current;
    older = h.older;
    numbered = h.numbered;
    taken = taken;
    below = below;
    topped = topped;
  }

  pub refresh_active_size-current :
      (seq ts : ℕ) (olds : List (List OwnedRecord)) (now : List OwnedRecord) (s : FileSpool)
      → H seq ts olds now s
      → refresh_active_size s
        ≡ (ok tt, record s { active_size_bytes = length s.active_writer.inner.bytes })
  unfolding refresh_active_size
  refresh_active_size-current seq ts olds now s h =
      rw
        (ap (len_of s.active_segment_id) (segments_of-current s h.current)
          ∙ len_of-last 0 s.active_segment_id s.active_writer.inner.bytes s.older h.numbered)
        refl

  -- What the open file holds once its buffer is written.
  IsIdle-IsOnDisk :
      (now : List OwnedRecord) (w : LogjetWriter BufFile) (f : BufFile)
      → IsIdle lib codec alignment capacity fitting now w
      → IsWritten w.inner f
      → IsTopped now
      → IsOnDisk lib codec alignment capacity fitting now (record w { inner = f })
  IsIdle-IsOnDisk now w f idle written topped = record {
    idle =
        ap (λ (v : LogjetWriter BufFile). record v { inner = f }) idle.idle
        ∙ unfold with_config in refl;
    buffer = written.buffer;
    file = record {
      blocks = idle.blocks;
      stored = written.bytes ∙ idle.stored;
      filled = idle.filled;
      records_are = idle.records_are;
      topped = topped;
    };
  }

  -- Flushing the writer and then the file puts every record on disk.
  pub flushed-IsOnDisk :
      (seq ts : ℕ) (olds : List (List OwnedRecord)) (now : List OwnedRecord) (s : FileSpool)
      → H seq ts olds now s
      → (s₁ : FileSpool) × (w : LogjetWriter BufFile) × (flush_writer lib capacity quiet rounds s
          ≡ (ok tt, s₁))
        × (flush_file lib capacity quiet rounds s₁ ≡ (ok tt, record s { active_writer = w }))
        × IsOnDisk lib codec alignment capacity fitting now w
  unfolding flush_writer flush_file on_writer on_file
  flushed-IsOnDisk seq ts olds now s h =
      let (w, closed_eq, idle) =
        flush_block-Takes lib codec alignment capacity fitting seq ts now s.active_writer h.taken in
      let (f, flushed, written) = flush_buf-quiet w.inner in
      (
        record s { active_writer = w },
        record w { inner = f },
        rw closed_eq refl,
        rw flushed refl,
        IsIdle-IsOnDisk now w f idle written h.topped,
      )

  pub IsOnDisk-Takes :
      (seq ts : ℕ) (now : List OwnedRecord) (w : LogjetWriter BufFile)
      → IsOnDisk lib codec alignment capacity fitting now w
      → Takes lib codec alignment capacity fitting seq ts now w
  IsOnDisk-Takes seq ts now w d =
      IsIdle-Takes lib codec alignment capacity fitting seq ts now w (record {
        idle = d.idle;
        blocks = d.file.blocks;
        stored = ap (λ b. w.inner.bytes ++ b) d.buffer ∙ append-nil w.inner.bytes ∙ d.file.stored;
        filled = d.file.filled;
        records_are = d.file.records_are;
      })

  pub Holds-size :
      (seq ts n : ℕ) (olds : List (List OwnedRecord)) (now : List OwnedRecord) (s : FileSpool)
      → H seq ts olds now s
      → H seq ts olds now (record s { active_size_bytes = n })
  Holds-size seq ts n olds now s h = record {
    codec_is = h.codec_is;
    alignment_is = h.alignment_is;
    unlimited = h.unlimited;
    current = h.current;
    older = h.older;
    numbered = h.numbered;
    taken = h.taken;
    below = h.below;
    topped = h.topped;
  }

  pub IsOnDisk-tick :
      (now : List OwnedRecord) (w : LogjetWriter BufFile)
      → IsOnDisk lib codec alignment capacity fitting now w
      → IsOnDisk lib codec alignment capacity fitting now (record w { inner = tick quiet w.inner })
  IsOnDisk-tick now w d = record {
    idle =
        ap (λ (v : LogjetWriter BufFile). record v { inner = tick quiet w.inner }) d.idle
        ∙ unfold with_config in refl;
    buffer = d.buffer;
    file = d.file;
  }

  synced :
      (policy : Bool) (now : List OwnedRecord) (s : FileSpool)
      → IsOnDisk lib codec alignment capacity fitting now s.active_writer
      → (w : LogjetWriter BufFile) × ((if policy then on_disk quiet else pure tt) s
          ≡ (ok tt, record s { active_writer = w }))
        × IsOnDisk lib codec alignment capacity fitting now w
  unfolding on_file call
  synced true now s d = (
    record s.active_writer { inner = tick quiet s.active_writer.inner },
    refl,
    IsOnDisk-tick now s.active_writer d,
  )
  synced false now s d = (s.active_writer, refl, d)

  -- `flush_pending` succeeds, keeps what the spool holds and puts it on disk.
  pub flush_pending-IsOnDisk :
      (seq ts : ℕ) (olds : List (List OwnedRecord)) (now : List OwnedRecord) (s : FileSpool)
      → H seq ts olds now s
      → (s' : FileSpool) × (flush_pending lib capacity quiet rounds s ≡ (ok tt, s'))
        × H seq ts olds now s'
        × IsOnDisk lib codec alignment capacity fitting now s'.active_writer
        × (s'.consumed_through_seq ≡ s.consumed_through_seq)
        × (s'.active_segment_id ≡ s.active_segment_id)
  unfolding flush_pending
  flush_pending-IsOnDisk seq ts olds now s h =
      let (s₁, w, closed_eq, flushed, d) = flushed-IsOnDisk seq ts olds now s h in
      let (w', sync, d') = synced (is_block s.fsync) now (record s { active_writer = w }) d in
      let h' =
        Holds-writer seq ts seq ts olds now now s w' h (IsOnDisk-Takes seq ts now w' d') h.below
          h.topped in
      (
        record s { active_writer = w'; active_size_bytes = length w'.inner.bytes },
        rw (closed_eq, flushed, sync)
            (refresh_active_size-current seq ts olds now (record s { active_writer = w' }) h'),
        Holds-size seq ts (length w'.inner.bytes) olds now (record s { active_writer = w' }) h',
        d',
        refl,
        refl,
      )
