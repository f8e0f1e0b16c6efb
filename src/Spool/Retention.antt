-- ===== src/Spool/Retention.antt =====
-- `enforce_retention` of logjetd/src/spool.rs removes the oldest segments.
use logjet.Base.{
  ℕ, ◌-◌, ◌≤◌, ◌<◌, ◌≡◌, ◌≢◌, refl, ap, ◌⊎◌, inl, inr, false, List, [], ◌∷◌, ◌++◌, All, leb, ◌==◌,
  Bool-cases, leb→le, ==_iff, saturating_sub, arith,
}
use logjet.Spool.Pruning.{Segment, total_bytes, retain, enforce_retention, IsSplit}

-- What bounds the segments that are left: their size, or the active one is the oldest of them.
abbrev pub IsWithin : ℕ → ℕ → List Segment → Type 0
IsWithin max_total_bytes active_segment_id [] = Unit
IsWithin max_total_bytes active_segment_id (s ∷ later) =
    (total_bytes (s ∷ later) ≤ max_total_bytes) ⊎ (s.id ≡ active_segment_id)

-- Before each removal, in order, what was there was above the limit.
abbrev pub IsForced : ℕ → List Segment → List Segment → Type 0
IsForced max_total_bytes [] left = Unit
IsForced max_total_bytes (s ∷ removed) left =
    (max_total_bytes < total_bytes (s ∷ (removed ++ left))) × IsForced max_total_bytes removed left

module _ (max_total_bytes active_segment_id : ℕ) where
  abbrev pub IsInactive : Segment → Type 0
  IsInactive s = s.id ≢ active_segment_id

  abbrev pub IsRetained : List Segment → List Segment → Type 0
  IsRetained segments left =
      (removed : List Segment) × IsSplit segments removed left
      × All IsInactive removed
      × IsForced max_total_bytes removed left
      × IsWithin max_total_bytes active_segment_id left

  retain-IsRetained :
      (segments : List Segment) (excess : ℕ)
      → excess ≡ total_bytes segments - max_total_bytes
      → IsRetained segments (retain active_segment_id excess segments)
  unfolding retain
  retain-IsRetained [] excess h = ([], refl, tt, tt, tt)
  retain-IsRetained (s ∷ later) excess h = elim (Bool-cases (excess == 0)) [
    | inl e ↦ rw e ([], refl, tt, tt, inl (omega (arith, h, (==_iff excess 0).0 e)))
    | inr e ↦ rw e (elim (Bool-cases (s.id == active_segment_id)) [
      | inl f ↦ rw f ([], refl, tt, tt, inr ((==_iff s.id active_segment_id).0 f))
      | inr f ↦ rw f (
          let (removed, split, inactive, forced, within) =
            retain-IsRetained later (saturating_sub excess s.size_bytes) (omega (arith, h)) in
          (
            s ∷ removed,
            ap (λ l. s ∷ l) split,
            ((λ same. different f same), inactive),
            (omega (arith, h, over e, ap total_bytes split), forced),
            within,
          ))
    ])
  ]
    where
      over : (excess == 0) ≡ false → 0 < excess
      over e = ground arith

      different : (s.id == active_segment_id) ≡ false → ¬ (s.id ≡ active_segment_id)
      different f same = ground arith

  -- The same for the choice as a whole.
  pub enforce_retention-IsRetained :
      (segments : List Segment)
      → 0 < max_total_bytes
      → IsRetained segments (enforce_retention max_total_bytes active_segment_id segments)
  unfolding enforce_retention
  enforce_retention-IsRetained segments some_limit =
      let limited : (max_total_bytes == 0) ≡ false = ground arith in
      rw limited (elim (Bool-cases (leb (total_bytes segments) max_total_bytes)) [
        | inl e ↦
            rw e
              ([], refl, tt, tt, within segments (leb→le (total_bytes segments) max_total_bytes e))
        | inr e ↦ rw e (retain-IsRetained segments (total_bytes segments - max_total_bytes) refl)
      ])
    where
      within :
          (segments : List Segment)
          → total_bytes segments ≤ max_total_bytes
          → IsWithin max_total_bytes active_segment_id segments
      within [] h = tt
      within (s ∷ later) h = inl h
