-- ===== src/Spool/File/Consuming.antt =====
-- `cleanup_consumed_segments` of `FileSpool` (logjetd/src/spool.rs) on the older segments, where no
-- call fails: only records that were consumed go.
use logjet.Base.{
  ℕ, suc, ◌≤◌, ◌<◌, ◌≡◌, refl, sym, ap, ◌∙◌, subst, List, [], ◌∷◌, ◌++◌, append_assoc, some, ok,
  arith, ◌==◌, true, false,
}
use logjet.Record.{OwnedRecord}
use logjet.Codec.{Codec, Libraries, LibraryLaws}
use logjet.Reader.State.{default_config}
use logjet.Log.Flushing.{IsFitting}
use logjet.Spool.File.Buffered.{tick, call}
use logjet.Spool.File.State.{
  SegmentFile, FileSpool, without, forget, unlinked, set_inner, on_file, remove_file,
}
use logjet.Spool.File.Sink.{quiet}
use logjet.Spool.File.Holds.{IsNumbered, joined, config_of, HoldEach, Holds, IsOnDisk}
use logjet.Spool.File.Flushing.{IsOnDisk-Takes, IsOnDisk-tick}

above :
    (low high : ℕ) (ks : List SegmentFile) (f : SegmentFile) (fs : List SegmentFile)
    → IsNumbered low high (ks ++ (f ∷ fs))
    → low ≤ f.id
above low high [] f fs h = h.0
above low high (k ∷ ks) f fs (hk, h) = omega (arith, hk, above (suc k.id) high ks f fs h)

below_high : (low high : ℕ) (fs : List SegmentFile) → IsNumbered low high fs → low ≤ high
below_high low high [] h = h
below_high low high (f ∷ fs) (hf, h) = omega (arith, hf, below_high (suc f.id) high fs h)

pub under :
    (low high : ℕ) (ks : List SegmentFile) (f : SegmentFile) (fs : List SegmentFile)
    → IsNumbered low high (ks ++ (f ∷ fs))
    → f.id < high
under low high [] f fs h = omega (arith, below_high (suc f.id) high fs h.1)
under low high (k ∷ ks) f fs (hk, h) = under (suc k.id) high ks f fs h

pub IsNumbered-weaken :
    (low low' high high' : ℕ) (fs : List SegmentFile)
    → low' ≤ low
    → high ≤ high'
    → IsNumbered low high fs
    → IsNumbered low' high' fs
IsNumbered-weaken low low' high high' [] hl hh h = omega (arith, hl, hh, h)
IsNumbered-weaken low low' high high' (f ∷ fs) hl hh (hf, h) = (
  omega (arith, hl, hf),
  IsNumbered-weaken (suc f.id) (suc f.id) high high' fs (omega arith) hh h,
)

pub without-middle :
    (low high : ℕ) (ks : List SegmentFile) (f : SegmentFile) (fs : List SegmentFile)
    → IsNumbered low high (ks ++ (f ∷ fs))
    → without f.id (ks ++ (f ∷ fs)) ≡ ks ++ fs
unfolding without
without-middle low high [] f fs h = rw (let e : (f.id == f.id) ≡ true = ground arith in e) refl
without-middle low high (k ∷ ks) f fs (hk, h) =
    rw (let e : (k.id == f.id) ≡ false = ground (arith, above (suc k.id) high ks f fs h) in e)
      (ap (λ l. k ∷ l) (without-middle (suc k.id) high ks f fs h))

IsNumbered-without :
    (low high : ℕ) (ks : List SegmentFile) (f : SegmentFile) (fs : List SegmentFile)
    → IsNumbered low high (ks ++ (f ∷ fs))
    → IsNumbered low high (ks ++ fs)
IsNumbered-without low high [] f fs (hf, h) =
    IsNumbered-weaken (suc f.id) low high high fs (omega (arith, hf)) (omega arith) h
IsNumbered-without low high (k ∷ ks) f fs (hk, h) =
    (hk, IsNumbered-without (suc k.id) high ks f fs h)

pub forget-other : (id open_id : ℕ) → id < open_id → forget id (some open_id) ≡ some open_id
forget-other id open_id h = rw (let e : (open_id == id) ≡ false = ground arith in e) refl

module _ (lib : Libraries) (codec : Codec) (alignment : ℕ) where
  HoldEach-append :
      (ks : List SegmentFile) (kss : List (List OwnedRecord)) (fs : List SegmentFile)
      (fss : List (List OwnedRecord))
      → HoldEach lib codec alignment ks kss
      → HoldEach lib codec alignment fs fss
      → HoldEach lib codec alignment (ks ++ fs) (kss ++ fss)
  HoldEach-append [] [] fs fss hk hf = hf
  HoldEach-append [] (xs ∷ kss) fs fss hk hf = absurd hk
  HoldEach-append (k ∷ ks) [] fs fss hk hf = absurd hk
  HoldEach-append (k ∷ ks) (xs ∷ kss) fs fss (hx, hk) hf = (hx, HoldEach-append ks kss fs fss hk hf)

joined-append : (xss yss : List (List OwnedRecord)) → joined (xss ++ yss) ≡ joined xss ++ joined yss
joined-append [] yss = refl
joined-append (xs ∷ xss) yss =
    ap (λ l. xs ++ l) (joined-append xss yss) ∙ sym (append_assoc xs (joined xss) (joined yss))

module _ (lib : Libraries) (laws : LibraryLaws lib) (codec : Codec) (alignment capacity rounds : ℕ)
    (fitting : IsFitting lib (config_of codec alignment) default_config) (seq ts : ℕ)
    (now : List OwnedRecord) where
  -- A spool in the middle of the cleaning: the files `ks` have had their turn, and `fs` have not.
  pub record Cleaning (n : ℕ) (ks fs : List SegmentFile) (kss fss : List (List OwnedRecord))
      (s : FileSpool) : Type 0 where
    pub consumed : s.consumed_through_seq ≡ n
    pub files : s.older ≡ ks ++ fs
    pub holds : Holds lib codec alignment capacity fitting seq ts (kss ++ fss) now s
    pub on_disk : IsOnDisk lib codec alignment capacity fitting now s.active_writer
    pub kept : HoldEach lib codec alignment ks kss
    pub later : HoldEach lib codec alignment fs fss

  pub removed-Cleaning :
      (n : ℕ) (ks fs : List SegmentFile) (kss fss : List (List OwnedRecord)) (f : SegmentFile)
      (rs : List OwnedRecord) (s : FileSpool)
      → Cleaning n ks (f ∷ fs) kss (rs ∷ fss) s
      → (s' : FileSpool) × (remove_file quiet f.id s ≡ (ok tt, s'))
        × Cleaning n ks fs kss fss s'
        × (s'.active_segment_id ≡ s.active_segment_id)
        × (s'.active_writer.inner.bytes ≡ s.active_writer.inner.bytes)
  unfolding remove_file on_file call
  removed-Cleaning n ks fs kss fss f rs s c =
      let h = c.holds in
      let s' = unlinked f.id (set_inner s (tick quiet s.active_writer.inner)) in
      let numbered : IsNumbered 0 s.active_segment_id (ks ++ (f ∷ fs)) =
        subst (IsNumbered 0 s.active_segment_id) c.files h.numbered in
      let files : s'.older ≡ ks ++ fs =
        ap (without f.id) c.files ∙ without-middle 0 s.active_segment_id ks f fs numbered in
      let d =
        IsOnDisk-tick lib codec alignment capacity rounds fitting now s.active_writer c.on_disk in
      (
        s',
        refl,
        record {
          consumed = c.consumed;
          files = files;
          holds = record {
            codec_is = h.codec_is;
            alignment_is = h.alignment_is;
            unlimited = h.unlimited;
            current =
                ap (forget f.id) h.current
                ∙ forget-other f.id s.active_segment_id
                    (under 0 s.active_segment_id ks f fs numbered);
            older =
                subst (λ l. HoldEach lib codec alignment l (kss ++ fss)) (sym files)
                  (HoldEach-append lib codec alignment ks kss fs fss c.kept c.later.1);
            numbered =
                subst (IsNumbered 0 s.active_segment_id) (sym files)
                  (IsNumbered-without 0 s.active_segment_id ks f fs numbered);
            taken =
                IsOnDisk-Takes lib codec alignment capacity rounds fitting seq ts now
                  (record s.active_writer { inner = tick quiet s.active_writer.inner }) d;
            below = h.below;
            topped = h.topped;
          };
          on_disk = d;
          kept = c.kept;
          later = c.later.1;
        },
        refl,
        refl,
      )

  -- A file that stays.
  pub passed-Cleaning :
      (n : ℕ) (ks fs : List SegmentFile) (kss fss : List (List OwnedRecord)) (f : SegmentFile)
      (rs : List OwnedRecord) (s : FileSpool)
      → Cleaning n ks (f ∷ fs) kss (rs ∷ fss) s
      → Cleaning n (ks ++ (f ∷ [])) fs (kss ++ (rs ∷ [])) fss s
  passed-Cleaning n ks fs kss fss f rs s c = record {
    consumed = c.consumed;
    files = c.files ∙ sym (append_assoc ks (f ∷ []) fs);
    holds =
        subst (λ l. Holds lib codec alignment capacity fitting seq ts l now s)
          (sym (append_assoc kss (rs ∷ []) fss)) c.holds;
    on_disk = c.on_disk;
    kept = HoldEach-append lib codec alignment ks kss (f ∷ []) (rs ∷ []) c.kept (c.later.0, tt);
    later = c.later.1;
  }
