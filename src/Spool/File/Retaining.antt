-- ===== src/Spool/File/Retaining.antt =====
-- `enforce_retention` of `FileSpool` (logjetd/src/spool.rs) where no call fails removes the segments
-- that the choice by numbers and sizes removes.
use logjet.Base.{
  ℕ, suc, ◌+◌, ◌-◌, ◌<◌, ◌≡◌, refl, sym, ap, ap₂, ◌∙◌, subst, List, [], ◌∷◌, ◌++◌, map, some, ok,
  arith, leb, ◌==◌, ◌||◌, length, true, Bool-cases, inl, inr, saturating_sub,
}
use logjet.Codec.{Libraries}
use logjet.Spool.Pruning
use logjet.Spool.Pruning.{Segment, total_bytes}
use logjet.Spool.Retention.{IsRetained, enforce_retention-IsRetained}
use logjet.Spool.File.Buffered.{tick, call}
use logjet.Spool.File.State.{
  SegmentFile, FileSpool, segments_of, named, without, forget, unlinked, set_inner, on_file,
  remove_file,
}
use logjet.Spool.File.Operations.{retain, enforce_retention, total_len}
use logjet.Spool.File.Sink.{quiet}
use logjet.Spool.File.Holds.{IsNumbered}
use logjet.Spool.File.Consuming.{under, forget-other}

-- A file by its number and its size.
abbrev pub sized : SegmentFile → Segment
sized f = record { id = f.id; size_bytes = length f.bytes }

total_len-sized : (fs : List SegmentFile) → total_len fs ≡ total_bytes (map sized fs)
total_len-sized [] = refl
total_len-sized (f ∷ fs) = ap (λ n. length f.bytes + n) (total_len-sized fs)

-- The spool whose open segment is the active one, with these files before it.
record IsCurrent (low : ℕ) (fs : List SegmentFile) (s : FileSpool) : Type 0 where
  older : s.older ≡ fs
  open_id : s.open_segment_id ≡ some s.active_segment_id
  numbered : IsNumbered low s.active_segment_id fs

abbrev active_file : FileSpool → SegmentFile
active_file s = record { id = s.active_segment_id; bytes = s.active_writer.inner.bytes }

listed :
    (low : ℕ) (fs : List SegmentFile) (s : FileSpool)
    → IsCurrent low fs s
    → segments_of s ≡ fs ++ (active_file s ∷ [])
listed low fs s c = ap₂ (λ l o. l ++ named o s.active_writer.inner.bytes) c.older c.open_id

abbrev removed : ℕ → FileSpool → FileSpool
removed id s = unlinked id (set_inner s (tick quiet s.active_writer.inner))

removed-IsCurrent :
    (low : ℕ) (f : SegmentFile) (fs : List SegmentFile) (s : FileSpool)
    → IsCurrent low (f ∷ fs) s
    → IsCurrent (suc f.id) fs (removed f.id s)
unfolding without
removed-IsCurrent low f fs s c = record {
  older =
      ap (without f.id) c.older ∙ rw (let same : (f.id == f.id) ≡ true = ground arith in same) refl;
  open_id =
      ap (forget f.id) c.open_id
      ∙ forget-other f.id s.active_segment_id (under low s.active_segment_id [] f fs c.numbered);
  numbered = c.numbered.1;
}

remove_file-quiet : (id : ℕ) (s : FileSpool) → remove_file quiet id s ≡ (ok tt, removed id s)
unfolding remove_file on_file call
remove_file-quiet id s = refl

module _ (lib : Libraries) (capacity rounds : ℕ) where
  -- The loop, on the files before the active one.
  retain-quiet :
      (low excess : ℕ) (fs : List SegmentFile) (s : FileSpool)
      → IsCurrent low fs s
      → (s' : FileSpool) × (retain lib capacity quiet rounds (fs ++ (active_file s ∷ [])) excess s
          ≡ (ok tt, s'))
        × (map sized (segments_of s')
            ≡ Pruning.retain s.active_segment_id excess (map sized (fs ++ (active_file s ∷ []))))
  unfolding retain Pruning.retain
  retain-quiet low excess [] s c =
      let stops : ((excess == 0) || (s.active_segment_id == s.active_segment_id)) ≡ true =
        ground arith in
      rw stops (s, refl, ap (map sized) (listed low [] s c))
  retain-quiet low excess (f ∷ fs) s c =
      elim (Bool-cases ((excess == 0) || (f.id == s.active_segment_id))) [
        | inl stops ↦ rw stops (s, refl, ap (map sized) (listed low (f ∷ fs) s c))
        | inr goes ↦
            let (s', later, same) =
              retain-quiet (suc f.id) (saturating_sub excess (length f.bytes)) fs (removed f.id s)
                (removed-IsCurrent low f fs s c) in
            rw (goes, remove_file-quiet f.id s) (s', later, same)
      ]

  -- `enforce_retention` succeeds and leaves what the choice leaves.
  enforce_retention-quiet :
      (s : FileSpool)
      → s.open_segment_id ≡ some s.active_segment_id
      → IsNumbered 0 s.active_segment_id s.older
      → (s' : FileSpool) × (enforce_retention lib capacity quiet rounds s ≡ (ok tt, s'))
        × (map sized (segments_of s')
            ≡ Pruning.enforce_retention s.max_total_bytes s.active_segment_id
                (map sized (segments_of s)))
  unfolding enforce_retention Pruning.enforce_retention
  enforce_retention-quiet s open_id numbered =
      let fs = segments_of s in
      let total = total_len-sized fs in
      let c : IsCurrent 0 s.older s = record {
        older = refl;
        open_id = open_id;
        numbered = numbered;
      } in
      rw (sym total) (elim (Bool-cases (s.max_total_bytes == 0)) [
        | inl unlimited ↦ rw unlimited (s, refl, refl)
        | inr limited ↦ elim (Bool-cases (leb (total_len fs) s.max_total_bytes)) [
          | inl within ↦ rw (limited, within) (s, refl, refl)
          | inr over ↦
              rw (limited, over)
                (subst
                  (λ l.
                    (s' : FileSpool) × (retain lib capacity quiet rounds l
                        (total_len fs - s.max_total_bytes) s
                      ≡ (ok tt, s'))
                    × (map sized (segments_of s')
                        ≡ Pruning.retain s.active_segment_id (total_len fs - s.max_total_bytes)
                            (map sized l)))
                  (sym (listed 0 s.older s c))
                  (retain-quiet 0 (total_len fs - s.max_total_bytes) s.older s c))
        ]
      ])

  -- Retention removes the oldest segments, each only while the limit is passed, until it holds or the
  -- active segment is the oldest: with a limit that is not 0, `enforce_retention` succeeds; what it
  -- removes is a front part of the segments in which none is the active one; before each removal the
  -- segments that were there had more bytes than the limit; and what is left is within the limit or
  -- begins with the active segment. The segments' numbers rise, the active one is the open one, and no call to the files fails.
  pub enforce_retention-Retains :
      (s : FileSpool)
      → s.open_segment_id ≡ some s.active_segment_id
      → IsNumbered 0 s.active_segment_id s.older
      → 0 < s.max_total_bytes
      → (s' : FileSpool) × (enforce_retention lib capacity quiet rounds s ≡ (ok tt, s'))
        × IsRetained s.max_total_bytes s.active_segment_id
            (map sized (segments_of s))
            (map sized (segments_of s'))
  enforce_retention-Retains s open_id numbered limited =
      let (s', done, same) = enforce_retention-quiet s open_id numbered in
      (
        s',
        done,
        subst (IsRetained s.max_total_bytes s.active_segment_id (map sized (segments_of s)))
            (sym same)
            (enforce_retention-IsRetained s.max_total_bytes s.active_segment_id
              (map sized (segments_of s)) limited),
      )
