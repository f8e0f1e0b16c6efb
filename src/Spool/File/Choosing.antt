-- ===== src/Spool/File/Choosing.antt =====
-- The segment that `FileSpool::open` of logjetd/src/spool.rs writes to, and the ones before it.
use logjet.Base.{
  ℕ, suc, ◌+◌, ◌≤◌, ◌<◌, ◌^◌, ◌≡◌, refl, sym, ap, ◌∙◌, List, [], ◌∷◌, ◌++◌, append-nil,
  append_assoc, ok, arith, ltb, length, Bool-cases, inl, inr, checked_add-fits,
}
use logjet.Record.{OwnedRecord}
use logjet.Codec.{Codec, Libraries}
use logjet.Spool.File.State.{SegmentFile, next_id}
use logjet.Spool.File.Opening.{Choice, behind, onto, choose_active}
use logjet.Spool.File.Holds.{IsNumbered, joined, HoldsFile, HoldEach}

module _ (lib : Libraries) (codec : Codec) (alignment : ℕ) where
  -- What the segment to write to and the ones before it hold.
  pub record Chosen (low high : ℕ) (records : List OwnedRecord) (c : Choice) : Type 0 where
    pub olds : List (List OwnedRecord)
    pub now : List OwnedRecord
    pub older : HoldEach lib codec alignment c.older olds
    pub file : HoldsFile lib codec alignment c.bytes now
    pub records_are : joined olds ++ now ≡ records
    pub numbered : IsNumbered low c.id c.older
    pub id : c.id ≤ high

  choose_active-last :
      (size low high : ℕ) (f : SegmentFile) (fs : List SegmentFile) (rs : List OwnedRecord)
      (rss : List (List OwnedRecord))
      → HoldsFile lib codec alignment [] []
      → HoldEach lib codec alignment (f ∷ fs) (rs ∷ rss)
      → IsNumbered low high (f ∷ fs)
      → high < 2 ^ 64
      → (c : Choice) × (choose_active size (f ∷ fs) ≡ ok c) × Chosen low high (joined (rs ∷ rss)) c
  unfolding choose_active next_id
  choose_active-last size low high f [] rs (xs ∷ rss) empty (hf, held) numbered fits = absurd held
  choose_active-last size low high f [] rs [] empty (hf, held) (low_f, numbered) fits =
      elim (Bool-cases (ltb (length f.bytes) size)) [
        | inl room ↦ (
          record { older = []; id = f.id; bytes = f.bytes },
          rw room refl,
          record {
            olds = [];
            now = rs;
            older = tt;
            file = hf;
            records_are = sym (append-nil rs);
            numbered = low_f;
            id = omega (arith, numbered);
          },
        )
        | inr full ↦ (
          behind f (f.id + 1),
          rw (full, checked_add-fits f.id 1 (omega (arith, numbered, fits))) refl,
          record {
            olds = rs ∷ [];
            now = [];
            older = (hf, tt);
            file = empty;
            records_are = append-nil (rs ++ []);
            numbered = (low_f, omega arith);
            id = omega (arith, numbered);
          },
        )
      ]
  choose_active-last size low high f (g ∷ fs) rs [] empty (hf, held) numbered fits = absurd held
  choose_active-last size low high f (g ∷ fs) rs (xs ∷ rss) empty (hf, held) (low_f, numbered)
        fits =
      let (c, chosen, h) =
        choose_active-last size (suc f.id) high g fs xs rss empty held numbered fits in
      (
        onto f c,
        rw chosen refl,
        record {
          olds = rs ∷ h.olds;
          now = h.now;
          older = (hf, h.older);
          file = h.file;
          records_are = append_assoc rs (joined h.olds) h.now ∙ ap (λ l. rs ++ l) h.records_are;
          numbered = (low_f, h.numbered);
          id = h.id;
        },
      )

  pub choose_active-Chosen :
      (size high : ℕ) (fs : List SegmentFile) (rss : List (List OwnedRecord))
      → HoldsFile lib codec alignment [] []
      → HoldEach lib codec alignment fs rss
      → IsNumbered 0 high fs
      → high < 2 ^ 64
      → (c : Choice) × (choose_active size fs ≡ ok c) × Chosen 0 high (joined rss) c
  choose_active-Chosen size high [] [] empty held numbered fits = (
    record { older = []; id = 0; bytes = [] },
    unfold choose_active in refl,
    record {
      olds = [];
      now = [];
      older = tt;
      file = empty;
      records_are = refl;
      numbered = omega arith;
      id = omega arith;
    },
  )
  choose_active-Chosen size high [] (rs ∷ rss) empty held numbered fits = absurd held
  choose_active-Chosen size high (f ∷ fs) [] empty held numbered fits = absurd held
  choose_active-Chosen size high (f ∷ fs) (rs ∷ rss) empty held numbered fits =
      choose_active-last size 0 high f fs rs rss empty held numbered fits
