-- ===== src/Spool/File/Cleaning.antt =====
-- The loop of `cleanup_consumed_segments` of `FileSpool` (logjetd/src/spool.rs) over the older
-- segments, where no call fails.
use logjet.Base.{
  ℕ, ◌≡◌, refl, sym, ap, ◌∙◌, subst, List, [], ◌∷◌, ◌++◌, append-nil, append_assoc, All, Option,
  none, some, ok, arith, ltb, ◌==◌, false, Bool-cases, inl, inr,
}
use logjet.Record.{OwnedRecord}
use logjet.Codec.{Codec, Libraries, LibraryLaws}
use logjet.Reader.State.{default_config}
use logjet.Log.Flushing.{IsFitting}
use logjet.Spool.File.State.{SegmentFile, FileSpool}
use logjet.Spool.File.Operations.{cleanup, drop_consumed}
use logjet.Spool.File.Sink.{quiet}
use logjet.Spool.File.Holds.{last_seq, IsNumbered, joined, config_of, IsReadable}
use logjet.Spool.File.Appending.{joined-snoc, All-below}
use logjet.Spool.File.Newer.{
  newer, newer-append, newer-below, segment_max_seq-last, IsPart, IsPart-same, IsPart-front,
  IsPart-trans, IsPart-append,
}
use logjet.Spool.File.Consuming.{Cleaning, removed-Cleaning, passed-Cleaning, under}

module _ (lib : Libraries) (laws : LibraryLaws lib) (codec : Codec) (alignment capacity rounds : ℕ)
    (fitting : IsFitting lib (config_of codec alignment) default_config) (seq ts : ℕ)
    (now : List OwnedRecord) where
  abbrev pub InCleaning :
      ℕ
      → List SegmentFile
      → List SegmentFile
      → List (List OwnedRecord)
      → List (List OwnedRecord)
      → FileSpool
      → Type 0
  InCleaning n ks fs kss fss s =
      Cleaning lib laws codec alignment capacity rounds fitting seq ts now n ks fs kss fss s

  -- The spool behind one or more turns: the files that stayed, and no record newer than `n` lost.
  pub record Cleaned (n : ℕ) (fs : List SegmentFile) (records : List OwnedRecord)
      (fss : List (List OwnedRecord)) (s s' : FileSpool) : Type 0 where
    pub ks : List SegmentFile
    pub kss : List (List OwnedRecord)
    pub cleaning : InCleaning n ks fs kss fss s'
    pub same : newer n (joined kss) ≡ newer n records
    pub part : IsPart alignment (joined kss) records
    pub id : s'.active_segment_id ≡ s.active_segment_id
    pub bytes : s'.active_writer.inner.bytes ≡ s.active_writer.inner.bytes

  stays :
      (n : ℕ) (ks fs : List SegmentFile) (kss fss : List (List OwnedRecord)) (f : SegmentFile)
      (rs : List OwnedRecord) (s : FileSpool)
      → InCleaning n ks (f ∷ fs) kss (rs ∷ fss) s
      → Cleaned n fs (joined kss ++ rs) fss s s
  stays n ks fs kss fss f rs s c = record {
    ks = ks ++ (f ∷ []);
    kss = kss ++ (rs ∷ []);
    cleaning =
        passed-Cleaning lib laws codec alignment capacity rounds fitting seq ts now n ks fs kss fss
          f rs s c;
    same = ap (newer n) (joined-snoc kss rs);
    part = IsPart-same alignment _ _ (joined-snoc kss rs);
    id = refl;
    bytes = refl;
  }

  drop_older :
      (n : ℕ) (ks fs : List SegmentFile) (kss fss : List (List OwnedRecord)) (f : SegmentFile)
      (rs : List OwnedRecord) (s : FileSpool) (max_seq : Option ℕ)
      → last_seq none rs ≡ max_seq
      → InCleaning n ks (f ∷ fs) kss (rs ∷ fss) s
      → (s' : FileSpool) × (drop_consumed lib capacity quiet rounds f.id max_seq s ≡ (ok tt, s'))
        × Cleaned n fs (joined kss ++ rs) fss s s'
  unfolding drop_consumed
  drop_older n ks fs kss fss f rs s none e c = (s, refl, stays n ks fs kss fss f rs s c)
  drop_older n ks fs kss fss f rs s (some m) e c =
      elim (Bool-cases (ltb s.consumed_through_seq m)) [
        | inl new ↦ (s, rw new refl, stays n ks fs kss fss f rs s c)
        | inr old ↦
            let (s', removed, cleaning, id, bytes) =
              removed-Cleaning lib laws codec alignment capacity rounds fitting seq ts now n ks fs
                kss fss f rs s c in
            let numbered : IsNumbered 0 s.active_segment_id (ks ++ (f ∷ fs)) =
              subst (IsNumbered 0 s.active_segment_id) c.files c.holds.numbered in
            let apart : (f.id == s.active_segment_id) ≡ false =
              ground (arith, under 0 s.active_segment_id ks f fs numbered) in
            let gone : newer n rs ≡ [] =
              newer-below n rs
                (All-below m n rs (ground (arith, c.consumed)) (c.later.0.topped.below m e)) in
            (
              s',
              rw (old, apart) removed,
              record {
                ks = ks;
                kss = kss;
                cleaning = cleaning;
                same = sym (
                    newer-append n (joined kss) rs
                    ∙ ap (λ l. newer n (joined kss) ++ l) gone
                    ∙ append-nil (newer n (joined kss)));
                part = IsPart-front alignment (joined kss) rs;
                id = id;
                bytes = bytes;
              },
            )
      ]

  -- The turns of all the older files.
  pub cleanup-older :
      (n : ℕ) (ks fs : List SegmentFile) (kss fss : List (List OwnedRecord)) (s : FileSpool)
      (rest : List SegmentFile)
      → InCleaning n ks fs kss fss s
      → All (IsReadable lib codec alignment rounds) fss
      → (s' : FileSpool) × (cleanup lib capacity quiet rounds (fs ++ rest) s
          ≡ cleanup lib capacity quiet rounds rest s')
        × Cleaned n [] (joined kss ++ joined fss) [] s s'
  unfolding cleanup
  cleanup-older n ks [] kss [] s rest c readable = (
    s,
    refl,
    record {
      ks = ks;
      kss = kss;
      cleaning = c;
      same = ap (newer n) (sym (append-nil (joined kss)));
      part = IsPart-front alignment (joined kss) [];
      id = refl;
      bytes = refl;
    },
  )
  cleanup-older n ks [] kss (rs ∷ fss) s rest c readable = absurd c.later
  cleanup-older n ks (f ∷ fs) kss [] s rest c readable = absurd c.later
  cleanup-older n ks (f ∷ fs) kss (rs ∷ fss) s rest c (hr, readable) =
      let (s₁, dropped, c₁) = drop_older n ks fs kss fss f rs s (last_seq none rs) refl c in
      let (s', later, c') = cleanup-older n c₁.ks fs c₁.kss fss s₁ rest c₁.cleaning readable in
      (
        s',
        rw (segment_max_seq-last lib laws codec alignment rounds capacity f.bytes rs c.later.0 hr)
            (rw dropped later),
        record {
          ks = c'.ks;
          kss = c'.kss;
          cleaning = c'.cleaning;
          same =
              c'.same
              ∙ newer-append n (joined c₁.kss) (joined fss)
              ∙ ap (λ l. l ++ newer n (joined fss)) c₁.same
              ∙ sym (newer-append n (joined kss ++ rs) (joined fss))
              ∙ ap (newer n) (append_assoc (joined kss) rs (joined fss));
          part = IsPart-trans alignment _ _ _ c'.part (
              IsPart-trans alignment _ _ _
                (IsPart-append alignment _ (joined kss ++ rs) (joined fss) c₁.part)
                (IsPart-same alignment _ _ (append_assoc (joined kss) rs (joined fss))));
          id = c'.id ∙ c₁.id;
          bytes = c'.bytes ∙ c₁.bytes;
        },
      )
