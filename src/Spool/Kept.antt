-- ===== src/Spool/Kept.antt =====
-- `prune_named_segments` of logjetd/src/spool.rs keeps the newest segments.
use logjet.Base.{
  ℕ, zero, suc, ◌-◌, ◌^◌, ◌≤◌, ◌<◌, ◌≡◌, refl, sym, ap, ◌∙◌, ◌⊎◌, inl, inr, max, Bool, true, false,
  ◌||◌, List, [], ◌∷◌, ◌++◌, none, some, length, take, drop, length-drop, min, subst, ltb, leb,
  Bool-cases, ltb→lt, ltb→le, leb→le, ok, saturating_add, arith,
}
use logjet.Spool.Pruning.{
  Segment, is_empty, prune_bytes, prune_files, prune_named_segments, total_bytes, IsSplit,
}

-- Without the oldest of them, the kept segments are smaller than the limit.
abbrev pub IsNeeded : ℕ → List Segment → Type 0
IsNeeded limit_bytes [] = Unit
IsNeeded limit_bytes (s ∷ []) = Unit
IsNeeded limit_bytes (s ∷ (t ∷ later)) = total_bytes (t ∷ later) < limit_bytes

record IsPruned (limit_bytes : ℕ) (segments removed kept : List Segment) (kept_total : ℕ)
    : Type 0 where
  split : IsSplit segments removed kept
  sum : kept_total ≡ total_bytes kept
  needed : IsNeeded limit_bytes kept
  full : (removed ≡ []) ⊎ (limit_bytes ≤ kept_total)

or-false : (a b : Bool) → a || b ≡ false → b ≡ false
or-false true b h = cc
or-false false b h = h

append-empty : (xs ys : List Segment) → [] ≡ xs ++ ys → xs ≡ []
append-empty [] ys h = refl
append-empty (x ∷ xs) ys h = cc

module _ (limit_bytes : ℕ) where
  -- Where the loop keeps a segment it has removed none behind it.
  kept-all :
      (later removed kept : List Segment) (kept_total : ℕ)
      → IsPruned limit_bytes later removed kept kept_total
      → is_empty later || ltb kept_total limit_bytes ≡ true
      → removed ≡ []
  kept-all [] removed kept kept_total h keeps = append-empty removed kept h.split
  kept-all (t ∷ later) removed kept kept_total h keeps = by_full h.full
    where
      by_full : (removed ≡ []) ⊎ (limit_bytes ≤ kept_total) → removed ≡ []
      by_full (inl e) = e
      by_full (inr le) = absurd (omega (arith, le, ltb→lt kept_total limit_bytes keeps))

  IsNeeded-kept :
      (s : Segment) (later : List Segment) (kept_total : ℕ)
      → kept_total ≡ total_bytes later
      → is_empty later || ltb kept_total limit_bytes ≡ true
      → IsNeeded limit_bytes (s ∷ later)
  IsNeeded-kept s [] kept_total h keeps = tt
  IsNeeded-kept s (t ∷ later) kept_total h keeps =
      omega (arith, h, ltb→lt kept_total limit_bytes keeps)

  IsPruned-kept :
      (s : Segment) (later removed kept : List Segment) (kept_total : ℕ)
      → IsPruned limit_bytes later removed kept kept_total
      → is_empty later || ltb kept_total limit_bytes ≡ true
      → total_bytes (s ∷ later) < 2 ^ 64
      → (kept' : List Segment) × IsPruned limit_bytes
          (s ∷ later)
          removed
          kept'
          (saturating_add kept_total s.size_bytes)
  IsPruned-kept s later removed kept kept_total h keeps small =
      let none_removed = kept-all later removed kept kept_total h keeps in
      let same : later ≡ kept = h.split ∙ ap (λ r. r ++ kept) none_removed in
      let sum : kept_total ≡ total_bytes later = h.sum ∙ ap total_bytes (sym same) in
      (
        s ∷ later,
        record {
          split = ap (λ r. r ++ (s ∷ later)) (sym none_removed);
          sum = omega (arith, sum, small);
          needed = IsNeeded-kept s later kept_total sum keeps;
          full = inl none_removed;
        },
      )

  prune_bytes-IsPruned :
      (segments : List Segment)
      → total_bytes segments < 2 ^ 64
      → (kept : List Segment) × IsPruned limit_bytes segments
          (prune_bytes limit_bytes segments).0
          kept
          (prune_bytes limit_bytes segments).1
  unfolding prune_bytes
  prune_bytes-IsPruned [] small =
      ([], record { split = refl; sum = refl; needed = tt; full = inl refl })
  prune_bytes-IsPruned (s ∷ later) small =
      let (kept, h) = prune_bytes-IsPruned later (omega (arith, small)) in
      elim (Bool-cases (is_empty later || ltb (prune_bytes limit_bytes later).1 limit_bytes)) [
        | inl e ↦ rw e (IsPruned-kept s later _ kept _ h e small)
        | inr e ↦ rw e (
          kept,
          record {
            split = ap (λ l. s ∷ l) h.split;
            sum = h.sum;
            needed = h.needed;
            full = inr (ltb→le _ limit_bytes (or-false (is_empty later) _ e));
          },
        )
      ]

take-drop : (n : ℕ) (xs : List Segment) → xs ≡ take n xs ++ drop n xs
take-drop zero xs = refl
take-drop (suc n) [] = refl
take-drop (suc n) (x ∷ xs) = ap (λ l. x ∷ l) (take-drop n xs)

prune_files-kept :
    (limit : ℕ) (summaries : List Segment)
    → (kept : List Segment) × IsSplit summaries (prune_files limit summaries) kept
      × (length kept ≡ min (length summaries) (max limit 1))
unfolding prune_files
prune_files-kept limit summaries = elim (Bool-cases (ltb (max limit 1) (length summaries))) [
  | inl e ↦ rw e (
    drop (length summaries - max limit 1) summaries,
    take-drop (length summaries - max limit 1) summaries,
    omega (
      arith,
      length-drop (length summaries - max limit 1) summaries,
      ltb→lt (max limit 1) (length summaries) e,
    ),
  )
  | inr e ↦ rw e (summaries, refl, omega (arith, ltb→le (max limit 1) (length summaries) e))
]

-- A single segment is kept in any case.
IsNeeded-single :
    (limit_bytes : ℕ) (summaries : List Segment)
    → length summaries ≤ 1
    → IsNeeded limit_bytes summaries
IsNeeded-single limit_bytes [] h = tt
IsNeeded-single limit_bytes (s ∷ []) h = tt
IsNeeded-single limit_bytes (s ∷ (t ∷ later)) h = absurd (omega (arith, h))

-- Pruning removes oldest segments only, and no more than it was asked to: in order of the segments'
-- numbers, what `prune_named_segments` removes is a front part; with a number of files it keeps that
-- many, at least one, or all if there are fewer; with a number of bytes, fewer segments than it keeps
-- would be below that size, or it keeps one or none, and if it removes any, it still keeps that many
-- bytes or more. The sizes add up to a u64.
pub prune_named_segments_lem :
    (limit limit_bytes : ℕ) (summaries : List Segment)
    → total_bytes summaries < 2 ^ 64
    → ((removed : List Segment) × (kept : List Segment) × (prune_named_segments summaries
            (some limit)
            none
          ≡ ok removed)
        × IsSplit summaries removed kept
        × (length kept ≡ min (length summaries) (max limit 1)))
      × ((removed : List Segment) × (kept : List Segment) × (prune_named_segments summaries none
              (some limit_bytes)
            ≡ ok removed)
          × IsSplit summaries removed kept
          × IsNeeded limit_bytes kept
          × ((removed ≡ []) ⊎ (limit_bytes ≤ total_bytes kept)))
unfolding prune_named_segments
prune_named_segments_lem limit limit_bytes summaries small =
    let (few, few_split, count) = prune_files-kept limit summaries in
    let (enough, pruned) = prune_bytes-IsPruned limit_bytes summaries small in
    elim (Bool-cases (leb (length summaries) 1)) [
      | inl e ↦ rw e (
        ([], summaries, refl, refl, omega (arith, leb→le (length summaries) 1 e)),
        (
          [],
          summaries,
          refl,
          refl,
          IsNeeded-single limit_bytes summaries (leb→le (length summaries) 1 e),
          inl refl,
        ),
      )
      | inr e ↦ rw e (
        (_, few, refl, few_split, count),
        (
          _,
          enough,
          refl,
          pruned.split,
          pruned.needed,
          subst (λ n. ((prune_bytes limit_bytes summaries).0 ≡ []) ⊎ (limit_bytes ≤ n)) pruned.sum
              pruned.full,
        ),
      )
    ]
