-- ===== src/Spool/File/Rotating.antt =====
-- `rotate` of `FileSpool` (logjetd/src/spool.rs) where no call fails: the open segment joins the older
-- ones.
use logjet.Base.{
  ℕ, suc, ◌+◌, ◌<◌, ◌^◌, ◌≡◌, refl, sym, ap, ap₂, ◌∙◌, subst, List, [], ◌∷◌, ◌++◌, some, length, ok,
  arith, ◌==◌, ◌||◌, leb, checked_add-fits,
}
use logjet.Record.{OwnedRecord}
use logjet.Codec.{Codec, Libraries}
use logjet.Writer.{is_empty, LogjetWriter, with_config}
use logjet.Reader.State.{default_config}
use logjet.Log.File.{records_of}
use logjet.Log.Layout.{file_bytes}
use logjet.Log.Flushing.{IsFitting}
use logjet.Spool.File.Buffered.{BufFile, tick, close, set_len, flush_buf, call, new_file}
use logjet.Spool.File.State.{
  SegmentFile, FileSpool, segments_of, named, writer_config, with_new_segment, next_id, on_file,
  start_segment, advance_id, set_inner,
}
use logjet.Spool.File.Operations.{total_len, rotate, enforce_retention}
use logjet.Spool.File.Sink.{quiet}
use logjet.Spool.File.Holds.{IsNumbered, config_of, HoldsFile, HoldEach, Holds, IsOnDisk}
use logjet.Spool.File.Flushing.{
  with_len-same, Holds-writer, refresh_active_size-current, flushed-IsOnDisk, IsOnDisk-Takes,
  Holds-size, IsOnDisk-tick,
}

module _ (lib : Libraries) (codec : Codec) (alignment capacity rounds : ℕ)
    (fitting : IsFitting lib (config_of codec alignment) default_config) where
  abbrev H : ℕ → ℕ → List (List OwnedRecord) → List OwnedRecord → FileSpool → Type 0
  H seq ts olds now s = Holds lib codec alignment capacity fitting seq ts olds now s

  abbrev Settled : List OwnedRecord → LogjetWriter BufFile → Type 0
  Settled now w = IsOnDisk lib codec alignment capacity fitting now w

  pub HoldEach-snoc :
      (fs : List SegmentFile) (rss : List (List OwnedRecord)) (f : SegmentFile)
      (rs : List OwnedRecord)
      → HoldEach lib codec alignment fs rss
      → HoldsFile lib codec alignment f.bytes rs
      → HoldEach lib codec alignment (fs ++ (f ∷ [])) (rss ++ (rs ∷ []))
  HoldEach-snoc [] [] f rs h hf = (hf, tt)
  HoldEach-snoc [] (xs ∷ rss) f rs h hf = absurd h
  HoldEach-snoc (g ∷ fs) [] f rs h hf = absurd h
  HoldEach-snoc (g ∷ fs) (xs ∷ rss) f rs (hg, h) hf = (hg, HoldEach-snoc fs rss f rs h hf)

  pub IsNumbered-snoc :
      (low id : ℕ) (fs : List SegmentFile) (bytes : List ℕ)
      → IsNumbered low id fs
      → IsNumbered low (suc id) (fs ++ (record { id = id; bytes = bytes } ∷ []))
  IsNumbered-snoc low id [] bytes h = (h, omega arith)
  IsNumbered-snoc low id (f ∷ fs) bytes (hf, h) = (hf, IsNumbered-snoc (suc f.id) id fs bytes h)

  close-written : (f : BufFile) → f.buffer ≡ [] → close quiet f ≡ f
  unfolding close flush_buf
  close-written f e = rw (ap is_empty e, close, flush_buf) refl

  config_is :
      (s : FileSpool)
      → s.codec ≡ codec
      → s.block_alignment ≡ alignment
      → writer_config s ≡ config_of codec alignment
  config_is s e e' = ap₂ config_of e e'

  pub empty-IsOnDisk :
      (calls : ℕ) → Settled [] (with_config (new_file calls) (config_of codec alignment))
  unfolding with_config file_bytes records_of
  empty-IsOnDisk calls = record {
    idle = refl;
    buffer = refl;
    file = record {
      blocks = [];
      stored = refl;
      filled = tt;
      records_are = refl;
      topped = record { below = λ m e. tt };
    };
  }

  -- A segment whose records are on disk gives way to an empty one with the next number.
  pub start_segment-Holds :
      (seq ts : ℕ) (olds : List (List OwnedRecord)) (now : List OwnedRecord) (s : FileSpool)
      → H seq ts olds now s
      → Settled now s.active_writer
      → s.active_segment_id + 1 < 2 ^ 64
      → (s₁ : FileSpool) × (s' : FileSpool) × (advance_id quiet s ≡ (ok tt, s₁))
        × (start_segment quiet s₁ ≡ (ok tt, s'))
        × H seq ts (olds ++ (now ∷ [])) [] s'
        × Settled [] s'.active_writer
        × (s'.consumed_through_seq ≡ s.consumed_through_seq)
        × (s'.active_segment_id ≡ s.active_segment_id + 1)
        × (s'.older
            ≡ s.older
              ++ (record { id = s.active_segment_id; bytes = s.active_writer.inner.bytes } ∷ []))
  unfolding advance_id next_id start_segment on_file call
  start_segment-Holds seq ts olds now s h d fits =
      let ticked = tick quiet s.active_writer.inner in
      let s₁ : FileSpool = record s { active_segment_id = s.active_segment_id + 1 } in
      let s' = with_new_segment quiet (set_inner s₁ ticked) in
      let file : SegmentFile = record {
        id = s.active_segment_id;
        bytes = s.active_writer.inner.bytes;
      } in
      let older : s'.older ≡ s.older ++ (file ∷ []) =
        ap (λ o. s.older ++ named o (close quiet ticked).bytes) h.current
        ∙ ap (λ (g : BufFile). s.older ++ named (some s.active_segment_id) g.bytes)
            (close-written ticked d.buffer) in
      let settled : Settled [] s'.active_writer =
        subst (λ c. Settled [] (with_config (new_file (close quiet ticked).calls) c))
          (sym (config_is s h.codec_is h.alignment_is))
          (empty-IsOnDisk (close quiet ticked).calls) in
      (
        s₁,
        s',
        rw (checked_add-fits s.active_segment_id 1 fits) refl,
        refl,
        record {
          codec_is = h.codec_is;
          alignment_is = h.alignment_is;
          unlimited = h.unlimited;
          current = refl;
          older =
              subst (λ fs. HoldEach lib codec alignment fs (olds ++ (now ∷ []))) (sym older)
                (HoldEach-snoc s.older olds file now h.older d.file);
          numbered = subst (IsNumbered 0 (s.active_segment_id + 1)) (sym older) (
              subst (λ n. IsNumbered 0 n (s.older ++ (file ∷ []))) (add_one s.active_segment_id)
                (IsNumbered-snoc 0 s.active_segment_id s.older file.bytes h.numbered));
          taken =
              IsOnDisk-Takes lib codec alignment capacity rounds fitting seq ts [] s'.active_writer
                settled;
          below = tt;
          topped = record { below = λ m e. tt };
        },
        settled,
        refl,
        refl,
        older,
      )
    where
      add_one : (n : ℕ) → suc n ≡ n + 1
      add_one n = omega arith

  enforce_retention-unlimited :
      (s : FileSpool)
      → s.max_total_bytes ≡ 0
      → enforce_retention lib capacity quiet rounds s ≡ (ok tt, s)
  unfolding enforce_retention
  enforce_retention-unlimited s e =
      rw (ap (λ m. (m == 0) || leb (total_len (segments_of s)) m) e) refl

  set_len-same : (f : BufFile) → set_len quiet (length f.bytes) f ≡ tick quiet f
  unfolding set_len
  set_len-same f = ap (λ b. record (tick quiet f) { bytes = b }) (with_len-same f.bytes)

  -- `rotate` succeeds, and puts what the writer has taken into a file behind the others.
  pub rotate-Holds :
      (seq ts : ℕ) (olds : List (List OwnedRecord)) (now : List OwnedRecord) (s : FileSpool)
      → H seq ts olds now s
      → s.active_segment_id + 1 < 2 ^ 64
      → (s' : FileSpool) × (rotate lib capacity quiet rounds s ≡ (ok tt, s'))
        × H seq ts (olds ++ (now ∷ [])) [] s'
        × (s'.consumed_through_seq ≡ s.consumed_through_seq)
        × (s'.active_segment_id ≡ s.active_segment_id + 1)
  unfolding rotate
  rotate-Holds seq ts olds now s h fits =
      let (s₁, w, closed_eq, flushed, d) =
        flushed-IsOnDisk lib codec alignment capacity rounds fitting seq ts olds now s h in
      let n = length w.inner.bytes in
      let w₂ : LogjetWriter BufFile = record w { inner = tick quiet w.inner } in
      let d₂ = IsOnDisk-tick lib codec alignment capacity rounds fitting now w d in
      let h₁ =
        Holds-writer lib codec alignment capacity rounds fitting seq ts seq ts olds now now s w h
          (IsOnDisk-Takes lib codec alignment capacity rounds fitting seq ts now w d) h.below
          h.topped in
      let h₂ =
        Holds-writer lib codec alignment capacity rounds fitting seq ts seq ts olds now now s w₂ h
          (IsOnDisk-Takes lib codec alignment capacity rounds fitting seq ts now w₂ d₂) h.below
          h.topped in
      let s₂ : FileSpool = record s { active_writer = w₂; active_size_bytes = n } in
      let (s₃, s', advanced, started, h', d', consumed, id, older) =
        start_segment-Holds seq ts olds now s₂
          (Holds-size lib codec alignment capacity rounds fitting seq ts n olds now
            (record s { active_writer = w₂ }) h₂)
          d₂ fits in
      (
        s',
        rw
            (
              closed_eq,
              flushed,
              refresh_active_size-current lib codec alignment capacity rounds fitting seq ts olds
                  now (record s { active_writer = w }) h₁,
              set_len-same w.inner,
              advanced,
              started,
            )
            (enforce_retention-unlimited s' h'.unlimited),
        h',
        consumed,
        id,
      )
