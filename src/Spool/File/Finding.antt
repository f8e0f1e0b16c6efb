-- ===== src/Spool/File/Finding.antt =====
-- `next_for_cursor` of `FileSpool` (logjetd/src/spool.rs) where every record is on disk.
use logjet.Base.{
  ℕ, suc, ◌≤◌, ◌<◌, ◌≡◌, refl, sym, ap, ◌∙◌, subst, List, [], ◌∷◌, ◌++◌, All, Option, none, some,
  ok, arith, ltb, true, false, max, Bool-cases, inl, inr,
}
use mathlib.Core.Option
use logjet.Record.{OwnedRecord}
use logjet.Codec.{Codec, Libraries, LibraryLaws}
use logjet.Reader.State.{default_config}
use logjet.Log.Flushing.{IsFitting}
use logjet.Spool.File.State.{SegmentFile, FileSpool, segments_of}
use logjet.Spool.File.Cursor.{FileReplayCursor, to_wire, search, next_for_cursor}
use logjet.Spool.File.Holds.{
  IsNumbered, joined, config_of, HoldsFile, HoldEach, IsReadable, IsOnDisk,
}
use logjet.Spool.File.Flushing.{segments_of-current}
use logjet.Spool.File.Rotating.{HoldEach-snoc, IsNumbered-snoc}
use logjet.Spool.File.Appending.{Held, joined-snoc}
use logjet.Spool.File.Newer.{newer, newer-append, head, IsReadable-each, while_records-newer}

-- The segments before the cursor's hint have no record newer than the floor.
abbrev pub IsPassed : ℕ → ℕ → List SegmentFile → List (List OwnedRecord) → Type 0
IsPassed hint floor_seq [] rss = Unit
IsPassed hint floor_seq (f ∷ fs) [] = Unit
IsPassed hint floor_seq (f ∷ fs) (rs ∷ rss) =
    (f.id < hint → newer floor_seq rs ≡ []) × IsPassed hint floor_seq fs rss

-- No segment behind this number stands before it.
IsPassed-later :
    (hint low high floor_seq : ℕ) (fs : List SegmentFile) (rss : List (List OwnedRecord))
    → hint ≤ low
    → IsNumbered low high fs
    → IsPassed hint floor_seq fs rss
IsPassed-later hint low high floor_seq [] rss h numbered = tt
IsPassed-later hint low high floor_seq (f ∷ fs) [] h numbered = tt
IsPassed-later hint low high floor_seq (f ∷ fs) (rs ∷ rss) h (hf, numbered) = (
  λ before. absurd (omega (arith, before, hf, h)),
  IsPassed-later hint (suc f.id) high floor_seq fs rss (omega (arith, h, hf)) numbered,
)

-- The cursor behind a record, or where it was.
abbrev pub seq_behind : ℕ → Option OwnedRecord → ℕ
seq_behind last_seq none = last_seq
seq_behind last_seq (some r) = r.seq

module _ (lib : Libraries) (laws : LibraryLaws lib) (codec : Codec) (alignment rounds : ℕ) where
  -- The search finds the first of these records, and the cursor goes behind it.
  abbrev Finds : ℕ → List SegmentFile → FileReplayCursor → List OwnedRecord → Type 0
  Finds floor_seq fs c found_records =
      (c' : FileReplayCursor) × (search lib rounds floor_seq fs c
        ≡ (ok (Option.map to_wire (head found_records)), c'))
      × (c'.last_seq ≡ seq_behind c.last_seq (head found_records))

  -- The turn of a file that is not passed over.
  searched :
      (floor_seq : ℕ) (f : SegmentFile) (fs : List SegmentFile) (rs : List OwnedRecord)
      (c : FileReplayCursor) (found_here later : List OwnedRecord)
      → newer floor_seq rs ≡ found_here
      → HoldsFile lib codec alignment f.bytes rs
      → IsReadable lib codec alignment rounds rs
      → ltb f.id c.next_segment_id_hint ≡ false
      → Finds floor_seq fs (record c { next_segment_id_hint = f.id }) later
      → Finds floor_seq (f ∷ fs) c (found_here ++ later)
  unfolding search
  searched floor_seq f fs rs c [] later e hold readable apart (c', rest, behind) = (
    c',
    rw
        (
          apart,
          while_records-newer lib laws codec alignment rounds floor_seq f.bytes rs hold readable,
          e,
        )
        rest,
    behind,
  )
  searched floor_seq f fs rs c (r ∷ found_here) later e hold readable apart rest = (
    record { next_segment_id_hint = f.id; last_seq = r.seq },
    rw
        (
          apart,
          while_records-newer lib laws codec alignment rounds floor_seq f.bytes rs hold readable,
          e,
        )
        refl,
    refl,
  )

  skipped :
      (floor_seq : ℕ) (f : SegmentFile) (fs : List SegmentFile) (c : FileReplayCursor)
      (later : List OwnedRecord)
      → ltb f.id c.next_segment_id_hint ≡ true
      → Finds floor_seq fs c later
      → Finds floor_seq (f ∷ fs) c later
  unfolding search
  skipped floor_seq f fs c later before (c', rest, behind) = (c', rw before rest, behind)

  search-newer :
      (floor_seq low high : ℕ) (fs : List SegmentFile) (rss : List (List OwnedRecord))
      (c : FileReplayCursor)
      → IsNumbered low high fs
      → HoldEach lib codec alignment fs rss
      → All (IsReadable lib codec alignment rounds) rss
      → IsPassed c.next_segment_id_hint floor_seq fs rss
      → Finds floor_seq fs c (newer floor_seq (joined rss))
  search-newer floor_seq low high [] [] c numbered held readable passed =
      (c, unfold search newer in refl, unfold newer in refl)
  search-newer floor_seq low high [] (rs ∷ rss) c numbered held readable passed = absurd held
  search-newer floor_seq low high (f ∷ fs) [] c numbered held readable passed = absurd held
  search-newer floor_seq low high (f ∷ fs) (rs ∷ rss) c (hf, numbered) (hold, held) (hr, readable)
        (passed, later) =
      elim (Bool-cases (ltb f.id c.next_segment_id_hint)) [
        | inl before ↦
            subst (Finds floor_seq (f ∷ fs) c)
              (sym (
                newer-append floor_seq rs (joined rss)
                ∙ ap (λ l. l ++ newer floor_seq (joined rss)) (passed (ground arith))))
              (skipped floor_seq f fs c (newer floor_seq (joined rss)) before
                (search-newer floor_seq (suc f.id) high fs rss c numbered held readable later))
        | inr apart ↦
            let at : FileReplayCursor = record c { next_segment_id_hint = f.id } in
            subst (Finds floor_seq (f ∷ fs) c) (sym (newer-append floor_seq rs (joined rss))) (
              searched floor_seq f fs rs c (newer floor_seq rs) (newer floor_seq (joined rss)) refl
                hold hr apart
                (search-newer floor_seq (suc f.id) high fs rss at numbered held readable
                  (IsPassed-later f.id (suc f.id) high floor_seq fs rss (omega arith) numbered)))
      ]

module _ (lib : Libraries) (laws : LibraryLaws lib) (codec : Codec) (alignment capacity rounds : ℕ)
    (fitting : IsFitting lib (config_of codec alignment) default_config) where
  -- A cursor finds the first record newer than both its own number and what has been consumed, and
  -- goes behind it, if no segment before its hint has such a record.
  pub next_for_cursor-newer :
      (seq ts : ℕ) (records : List OwnedRecord) (s : FileSpool) (c : FileReplayCursor)
      → (h : Held lib codec alignment capacity rounds fitting seq ts records s)
      → IsOnDisk lib codec alignment capacity fitting h.now s.active_writer
      → IsReadable lib codec alignment rounds records
      → IsPassed c.next_segment_id_hint
          (max c.last_seq s.consumed_through_seq)
          (segments_of s)
          (h.olds ++ (h.now ∷ []))
      → (c' : FileReplayCursor) × (next_for_cursor lib rounds s c ≡ (
        ok (Option.map to_wire (head (newer (max c.last_seq s.consumed_through_seq) records))),
        c',
      ))
        × (c'.last_seq
            ≡ seq_behind c.last_seq (head (newer (max c.last_seq s.consumed_through_seq) records)))
  unfolding next_for_cursor
  next_for_cursor-newer seq ts records s c h d readable passed =
      let active : SegmentFile = record {
        id = s.active_segment_id;
        bytes = s.active_writer.inner.bytes;
      } in
      let listed = segments_of-current s h.holds.current in
      let all : joined (h.olds ++ (h.now ∷ [])) ≡ records =
        joined-snoc h.olds h.now ∙ h.records_are in
      let floor_seq = max c.last_seq s.consumed_through_seq in
      subst (λ fs. Finds lib laws codec alignment rounds floor_seq fs c (newer floor_seq records))
        (sym listed)
        (subst
          (λ l.
            Finds lib laws codec alignment rounds floor_seq (s.older ++ (active ∷ [])) c
              (newer floor_seq l))
          all
          (search-newer lib laws codec alignment rounds floor_seq 0 (suc s.active_segment_id)
            (s.older ++ (active ∷ [])) (h.olds ++ (h.now ∷ [])) c
            (IsNumbered-snoc lib codec alignment capacity rounds fitting 0 s.active_segment_id
              s.older active.bytes h.holds.numbered)
            (HoldEach-snoc lib codec alignment capacity rounds fitting s.older h.olds active h.now
              h.holds.older d.file)
            (IsReadable-each lib laws codec alignment rounds (h.olds ++ (h.now ∷ []))
              (subst (IsReadable lib codec alignment rounds) (sym all) readable))
            (subst (λ fs. IsPassed c.next_segment_id_hint floor_seq fs (h.olds ++ (h.now ∷ [])))
              listed passed)))

  -- A new cursor has passed nothing over.
  pub nothing-IsPassed :
      (floor_seq : ℕ) (fs : List SegmentFile) (rss : List (List OwnedRecord))
      → IsPassed 0 floor_seq fs rss
  nothing-IsPassed floor_seq [] rss = tt
  nothing-IsPassed floor_seq (f ∷ fs) [] = tt
  nothing-IsPassed floor_seq (f ∷ fs) (rs ∷ rss) =
      (λ before. absurd (omega (arith, before)), nothing-IsPassed floor_seq fs rss)
