-- ===== src/Spool/File/Acknowledging.antt =====
-- `consume_through` of `FileSpool` (logjetd/src/spool.rs) where no call fails and every record is on
-- disk: no record newer than the acknowledged number goes.
use logjet.Base.{
  ℕ, ◌+◌, ◌≤◌, ◌<◌, ◌^◌, ◌≡◌, refl, sym, ap, ◌∙◌, subst, List, [], ◌∷◌, ◌++◌, append-nil, Option,
  none, some, ok, arith, ltb, leb, ◌==◌, true, max, Bool-cases, inl, inr,
}
use logjet.Record.{OwnedRecord}
use logjet.Codec.{Codec, Libraries, LibraryLaws}
use logjet.Reader.State.{default_config}
use logjet.Log.Flushing.{IsFitting}
use logjet.Replay.State.{to_string}
use logjet.Spool.File.Buffered.{tick, call}
use logjet.Spool.File.State.{SegmentFile, FileSpool, set_inner, on_file, write_state}
use logjet.Spool.File.Operations.{
  cleanup, drop_consumed, cleanup_consumed_segments, write_consumed_state, consume_newer,
  consume_through,
}
use logjet.Spool.File.Sink.{quiet}
use logjet.Spool.File.Holds.{last_seq, joined, config_of, IsReadable, IsOnDisk}
use logjet.Spool.File.Flushing.{segments_of-current, IsOnDisk-Takes, IsOnDisk-tick}
use logjet.Spool.File.Appending.{Held, All-below}
use logjet.Spool.File.Newer.{
  newer, newer-append, newer-below, IsReadable-parts, IsReadable-each, segment_max_seq-last, IsPart,
  IsPart-same, IsPart-front, IsPart-trans, IsPart-append,
}
use logjet.Spool.File.Cleaning.{InCleaning, cleanup-older}
use logjet.Spool.File.Advancing.{advanced-Holds}

module _ (lib : Libraries) (laws : LibraryLaws lib) (codec : Codec) (alignment capacity rounds : ℕ)
    (fitting : IsFitting lib (config_of codec alignment) default_config) (seq ts : ℕ) where
  -- Of the records that the spool holds, all on disk, those newer than `n` are these records' newer
  -- ones, and `n` has been consumed.
  pub record HoldsNewer (n : ℕ) (records : List OwnedRecord) (s : FileSpool) : Type 0 where
    pub left : List OwnedRecord
    pub held : Held lib codec alignment capacity rounds fitting seq ts left s
    pub on_disk : IsOnDisk lib codec alignment capacity fitting held.now s.active_writer
    pub same : newer n left ≡ newer n records
    pub part : IsPart alignment left records
    pub consumed : s.consumed_through_seq ≡ n

  all_stay :
      (n : ℕ) (ks : List SegmentFile) (kss : List (List OwnedRecord)) (now : List OwnedRecord)
      (s : FileSpool)
      → InCleaning lib laws codec alignment capacity rounds fitting seq ts now n ks [] kss [] s
      → HoldsNewer n (joined kss ++ now) s
  all_stay n ks kss now s c = record {
    left = joined kss ++ now;
    held = record {
      olds = kss ++ [];
      now = now;
      holds = c.holds;
      records_are = ap (λ l. joined l ++ now) (append-nil kss);
    };
    on_disk = c.on_disk;
    same = refl;
    part = IsPart-same alignment _ _ refl;
    consumed = c.consumed;
  }

  -- The active segment's turn, the last.
  last_turn :
      (n : ℕ) (ks : List SegmentFile) (kss : List (List OwnedRecord)) (now : List OwnedRecord)
      (s : FileSpool) (id : ℕ) (max_seq : Option ℕ)
      → id ≡ s.active_segment_id
      → InCleaning lib laws codec alignment capacity rounds fitting seq ts now n ks [] kss [] s
      → last_seq none now ≡ max_seq
      → s.active_segment_id + 1 < 2 ^ 64
      → (s' : FileSpool) × (drop_consumed lib capacity quiet rounds id max_seq s ≡ (ok tt, s'))
        × HoldsNewer n (joined kss ++ now) s'
        × (s'.active_segment_id ≤ s.active_segment_id + 1)
  unfolding drop_consumed
  last_turn n ks kss now s active_id none is_active c e fits =
      (s, refl, all_stay n ks kss now s c, omega arith)
  last_turn n ks kss now s active_id (some m) is_active c e fits =
      elim (Bool-cases (ltb s.consumed_through_seq m)) [
        | inl new ↦ (s, rw new refl, all_stay n ks kss now s c, omega arith)
        | inr old ↦
            let (s', advanced, holds, d, consumed, id) =
              advanced-Holds lib laws codec alignment capacity rounds fitting seq ts n ks kss now s
                c fits in
            let gone : newer n now ≡ [] =
              newer-below n now
                (All-below m n now (ground (arith, c.consumed)) (c.holds.topped.below m e)) in
            (
              s',
              rw (old, let same : (active_id == s.active_segment_id) ≡ true = ground arith in same)
                  advanced,
              record {
                left = joined kss ++ [];
                held = record { olds = kss; now = []; holds = holds; records_are = refl };
                on_disk = d;
                same =
                    newer-append n (joined kss) []
                    ∙ ap (λ l. newer n (joined kss) ++ l)
                        (let nothing : newer n [] ≡ [] = unfold newer in refl in nothing ∙ sym gone)
                    ∙ sym (newer-append n (joined kss) now);
                part =
                    IsPart-trans alignment _ _ _
                      (IsPart-same alignment _ _ (append-nil (joined kss)))
                      (IsPart-front alignment (joined kss) now);
                consumed = consumed ∙ c.consumed;
              },
              omega (arith, id),
            )
      ]

  -- The cleaning of all segments.
  pub cleanup-HoldsNewer :
      (n : ℕ) (olds : List (List OwnedRecord)) (now : List OwnedRecord) (s : FileSpool)
      → InCleaning lib laws codec alignment capacity rounds fitting seq ts now n [] s.older [] olds
          s
      → IsReadable lib codec alignment rounds (joined olds ++ now)
      → s.active_segment_id + 1 < 2 ^ 64
      → (s' : FileSpool) × (cleanup_consumed_segments lib capacity quiet rounds s ≡ (ok tt, s'))
        × HoldsNewer n (joined olds ++ now) s'
        × (s'.active_segment_id ≤ s.active_segment_id + 1)
  unfolding cleanup_consumed_segments cleanup
  cleanup-HoldsNewer n olds now s c readable fits =
      let (r_olds, r_now) =
        IsReadable-parts lib laws codec alignment rounds (joined olds) now readable in
      let active : SegmentFile = record {
        id = s.active_segment_id;
        bytes = s.active_writer.inner.bytes;
      } in
      let (s₁, turned, c₁) =
        cleanup-older lib laws codec alignment capacity rounds fitting seq ts now n [] s.older []
          olds s (active ∷ []) c (IsReadable-each lib laws codec alignment rounds olds r_olds) in
      let (s', dropped, newer_held, id) =
        last_turn n c₁.ks c₁.kss now s₁ s.active_segment_id (last_seq none now) (sym c₁.id)
          c₁.cleaning refl (omega (arith, c₁.id, fits)) in
      (
        s',
        rw (segments_of-current s c.holds.current, turned)
            (rw
              (segment_max_seq-last lib laws codec alignment rounds capacity
                s.active_writer.inner.bytes now c.on_disk.file r_now)
              (rw dropped refl)),
        record {
          left = newer_held.left;
          held = newer_held.held;
          on_disk = newer_held.on_disk;
          same =
              newer_held.same
              ∙ newer-append n (joined c₁.kss) now
              ∙ ap (λ l. l ++ newer n now) c₁.same
              ∙ sym (newer-append n (joined olds) now);
          part =
              IsPart-trans alignment _ _ _ newer_held.part
                (IsPart-append alignment (joined c₁.kss) (joined olds) now c₁.part);
          consumed = newer_held.consumed;
        },
        omega (arith, id, c₁.id),
      )

  -- The spool that has noted the number, before the cleaning.
  noted : ℕ → FileSpool → FileSpool
  noted n s =
      let f = tick quiet (tick quiet s.active_writer.inner) in
      record (set_inner s f) { consumed_through_seq = n; state_text = some (to_string n) }

  noted-InCleaning :
      (n : ℕ) (records : List OwnedRecord) (s : FileSpool)
      → (h : Held lib codec alignment capacity rounds fitting seq ts records s)
      → IsOnDisk lib codec alignment capacity fitting h.now s.active_writer
      → InCleaning lib laws codec alignment capacity rounds fitting seq ts h.now n [] s.older []
          h.olds
          (noted n s)
  unfolding noted
  noted-InCleaning n records s h d =
      let w = s.active_writer in
      let d₁ = IsOnDisk-tick lib codec alignment capacity rounds fitting h.now w d in
      let d₂ =
        IsOnDisk-tick lib codec alignment capacity rounds fitting h.now
          (record w { inner = tick quiet w.inner }) d₁ in
      record {
        consumed = refl;
        files = refl;
        holds = record {
          codec_is = h.holds.codec_is;
          alignment_is = h.holds.alignment_is;
          unlimited = h.holds.unlimited;
          current = h.holds.current;
          older = h.holds.older;
          numbered = h.holds.numbered;
          taken =
              IsOnDisk-Takes lib codec alignment capacity rounds fitting seq ts h.now
                (noted n s).active_writer d₂;
          below = h.holds.below;
          topped = h.holds.topped;
        };
        on_disk = d₂;
        kept = tt;
        later = h.holds.older;
      }

  consume_newer-noted :
      (n : ℕ) (s : FileSpool)
      → consume_newer lib capacity quiet rounds n s
        ≡ cleanup_consumed_segments lib capacity quiet rounds (noted n s)
  unfolding consume_newer write_consumed_state write_state on_file call noted
  consume_newer-noted n s = refl

  -- `consume_through` succeeds, loses no record newer than what has been consumed then, and notes it.
  pub consume_through-HoldsNewer :
      (n : ℕ) (records : List OwnedRecord) (s : FileSpool)
      → (h : Held lib codec alignment capacity rounds fitting seq ts records s)
      → IsOnDisk lib codec alignment capacity fitting h.now s.active_writer
      → IsReadable lib codec alignment rounds records
      → s.active_segment_id + 1 < 2 ^ 64
      → (s' : FileSpool) × (consume_through lib capacity quiet rounds n s ≡ (ok tt, s'))
        × HoldsNewer (max n s.consumed_through_seq) records s'
        × (s'.active_segment_id ≤ s.active_segment_id + 1)
  unfolding consume_through noted
  consume_through-HoldsNewer n records s h d readable fits =
      elim (Bool-cases (leb n s.consumed_through_seq)) [
        | inl old ↦ (
          s,
          rw old refl,
          record {
            left = records;
            held = h;
            on_disk = d;
            same = refl;
            part = IsPart-same alignment _ _ refl;
            consumed = ground arith;
          },
          omega arith,
        )
        | inr new ↦
            let (s', cleaned, kept, id) =
              cleanup-HoldsNewer n h.olds h.now (noted n s) (noted-InCleaning n records s h d)
                (subst (IsReadable lib codec alignment rounds) (sym h.records_are) readable) fits in
            let is_n : n ≡ max n s.consumed_through_seq = ground arith in
            (
              s',
              rw (new, consume_newer-noted n s) cleaned,
              subst (λ m. HoldsNewer m records s') is_n
                  (subst (λ l. HoldsNewer n l s') h.records_are kept),
              id,
            )
      ]
