-- ===== src/Dedup/Counts.antt =====
-- The exact deduplication of ljx/src/dedup/exact.rs makes one group of each hash.
use logjet.Base.{
  ℕ, zero, suc, ◌+◌, ◌≤◌, ◌≡◌, refl, sym, ap, ◌∙◌, subst, Bool, true, false, List, [], ◌∷◌, ◌++◌,
  Option, none, some, min, ◌==◌, ==_iff, Bool-cases, inl, inr, one_if, if◌then◌else◌, length, arith,
}
use logjet.Dedup.Flat.{FlatRecord, BucketKey}
use logjet.Dedup.Group.{DedupGroup, new, absorb}
use logjet.Dedup.Exact.{get, Indexed, absorb_at, dedup_found, dedup_records, dedup_bucket}

abbrev after_first : Option ℕ → Option ℕ
after_first none = none
after_first (some idx) = some (suc idx)

different : (a b h : ℕ) → (a == b) ≡ false → (b == h) ≡ true → (a == h) ≡ false
different a b h d e = ground arith

one_more :
    (a h count rest : ℕ)
    → (if a == h then count + 1 else 0) + rest
      ≡ (if a == h then count else 0) + rest + one_if (a == h)
one_more a h count rest = elim (Bool-cases (a == h)) [
  | inl e ↦ rw e (omega arith)
  | inr e ↦ rw e (omega arith)
]

module _ {K : Type 0} where
  -- How many records the groups with this signature count, and how many such groups there are.
  abbrev pub counted : ℕ → List (DedupGroup K) → ℕ
  counted h [] = 0
  counted h (g ∷ gs) = (if g.signature == h then g.count else 0) + counted h gs

  abbrev pub signed : ℕ → List (DedupGroup K) → ℕ
  signed h [] = 0
  signed h (g ∷ gs) = one_if (g.signature == h) + signed h gs

  -- The index of the first group with this signature.
  abbrev find : ℕ → List (DedupGroup K) → Option ℕ
  find h [] = none
  find h (g ∷ gs) = if g.signature == h then some 0 else after_first (find h gs)

  -- The map says what a search through the groups says.
  abbrev IsIndexed : Indexed K → Type 0
  IsIndexed s = (h : ℕ) → get h s.hash_to_idx ≡ find h s.groups

  find-absorb_at :
      (idx h : ℕ) (rec : FlatRecord K) (gs : List (DedupGroup K))
      → find h (absorb_at idx rec gs) ≡ find h gs
  unfolding absorb_at absorb
  find-absorb_at zero h rec [] = refl
  find-absorb_at (suc idx) h rec [] = refl
  find-absorb_at zero h rec (g ∷ gs) = refl
  find-absorb_at (suc idx) h rec (g ∷ gs) =
      ap (λ o. if g.signature == h then some 0 else after_first o) (find-absorb_at idx h rec gs)

  signed-absorb_at :
      (idx h : ℕ) (rec : FlatRecord K) (gs : List (DedupGroup K))
      → signed h (absorb_at idx rec gs) ≡ signed h gs
  unfolding absorb_at absorb
  signed-absorb_at zero h rec [] = refl
  signed-absorb_at (suc idx) h rec [] = refl
  signed-absorb_at zero h rec (g ∷ gs) = refl
  signed-absorb_at (suc idx) h rec (g ∷ gs) =
      ap (λ n. one_if (g.signature == h) + n) (signed-absorb_at idx h rec gs)

  absent-cons :
      (h : ℕ) (g : DedupGroup K) (gs : List (DedupGroup K))
      → find h (g ∷ gs) ≡ none
      → ((g.signature == h) ≡ false) × (find h gs ≡ none)
  absent-cons h g gs absent = by_head (g.signature == h) refl (find h gs) refl absent
    where
      by_head :
          (b : Bool)
          → (g.signature == h) ≡ b
          → (o : Option ℕ) → find h gs ≡ o
          → (if b then some 0 else after_first o) ≡ none
          → ((g.signature == h) ≡ false) × (find h gs ≡ none)
      by_head true e o f absent = cc
      by_head false e none f absent = (e, f)
      by_head false e (some idx) f absent = cc

  signed-none : (h : ℕ) (gs : List (DedupGroup K)) → find h gs ≡ none → signed h gs ≡ 0
  signed-none h [] absent = refl
  signed-none h (g ∷ gs) absent =
      let (other, later) = absent-cons h g gs absent in rw (other, signed-none h gs later)

  find-append :
      (h : ℕ) (g : DedupGroup K) (gs : List (DedupGroup K))
      → find g.signature gs ≡ none
      → find h (gs ++ (g ∷ [])) ≡ (if g.signature == h then some (length gs) else find h gs)
  find-append h g [] absent = refl
  find-append h g (x ∷ gs) absent =
      let (other, later) = absent-cons g.signature x gs absent in
      let rest = find-append h g gs later in
      elim (Bool-cases (g.signature == h)) [
        | inl e ↦ rw (different x.signature g.signature h other e, rest, e)
        | inr e ↦ rw (rest, e)
      ]

  signed-some :
      (h : ℕ) (gs : List (DedupGroup K)) (idx : ℕ) → find h gs ≡ some idx → 1 ≤ signed h gs
  signed-some h [] idx found = cc
  signed-some h (g ∷ gs) idx found =
      by_head (signed-some h gs) (g.signature == h) refl (find h gs) refl found
    where
      by_head :
          ((i : ℕ) → find h gs ≡ some i → 1 ≤ signed h gs)
          → (b : Bool) → (g.signature == h) ≡ b
          → (o : Option ℕ) → find h gs ≡ o
          → (if b then some 0 else after_first o) ≡ some idx
          → 1 ≤ signed h (g ∷ gs)
      by_head later true e o f found = omega (arith, ap one_if e)
      by_head later false e none f found = cc
      by_head later false e (some i) f found = omega (arith, later i f)

  counted-append :
      (h : ℕ) (gs hs : List (DedupGroup K)) → counted h (gs ++ hs) ≡ counted h gs + counted h hs
  counted-append h [] hs = omega arith
  counted-append h (g ∷ gs) hs = omega (arith, counted-append h gs hs)

  signed-append :
      (h : ℕ) (gs hs : List (DedupGroup K)) → signed h (gs ++ hs) ≡ signed h gs + signed h hs
  signed-append h [] hs = omega arith
  signed-append h (g ∷ gs) hs = omega (arith, signed-append h gs hs)

  counted-absorb_at :
      (idx hash h : ℕ) (rec : FlatRecord K) (gs : List (DedupGroup K))
      → find hash gs ≡ some idx
      → counted h (absorb_at idx rec gs) ≡ counted h gs + one_if (hash == h)
  unfolding absorb_at absorb
  counted-absorb_at idx hash h rec [] found = cc
  counted-absorb_at idx hash h rec (g ∷ gs) found =
      by_head (λ i. counted-absorb_at i hash h rec gs) (g.signature == hash) refl (find hash gs)
        refl idx found
    where
      same_index : (j i : ℕ) → some (suc j) ≡ some (suc i) → j ≡ i
      same_index j i e = let f : suc j ≡ suc i = cc in omega (arith, f)

      by_head :
          ((i : ℕ)
            → find hash gs ≡ some i
            → counted h (absorb_at i rec gs) ≡ counted h gs + one_if (hash == h))
          → (b : Bool) → (g.signature == hash) ≡ b
          → (o : Option ℕ) → find hash gs ≡ o
          → (idx : ℕ) → (if b then some 0 else after_first o) ≡ some idx
          → counted h (absorb_at idx rec (g ∷ gs)) ≡ counted h (g ∷ gs) + one_if (hash == h)
      by_head later true e o f zero found =
          one_more g.signature h g.count (counted h gs)
          ∙ ap (λ a. counted h (g ∷ gs) + one_if (a == h)) ((==_iff g.signature hash).0 e)
      by_head later true e o f (suc idx) found = cc
      by_head later false e none f idx found = cc
      by_head later false e (some j) f zero found = cc
      by_head later false e (some j) f (suc idx) found =
          omega (arith, later idx (f ∙ ap some (same_index j idx found)))

module _ {K : Type 0} (xxh3_64 : List ℕ → ℕ) where
  -- How many of the records have a body of this hash.
  abbrev pub hashed : ℕ → List (FlatRecord K) → ℕ
  hashed h [] = 0
  hashed h (rec ∷ records) = one_if (xxh3_64 rec.body == h) + hashed h records

  -- The groups after some records, `n` of which have the hash.
  abbrev HasGroups : ℕ → ℕ → List (DedupGroup K) → Type 0
  HasGroups h n gs = (counted h gs ≡ n) × (signed h gs ≡ min n 1)

  counted-new :
      (key : BucketKey) (hash h : ℕ) (rec : FlatRecord K)
      → counted h (new key hash rec ∷ []) ≡ one_if (hash == h)
  unfolding new
  counted-new key hash h rec = elim (Bool-cases (hash == h)) [
    | inl e ↦ rw e (omega arith)
    | inr e ↦ rw e (omega arith)
  ]

  found-IsIndexed :
      (key : BucketKey) (hash : ℕ) (rec : FlatRecord K) (s : Indexed K) (o : Option ℕ)
      → find hash s.groups ≡ o
      → IsIndexed s
      → IsIndexed (dedup_found key hash rec s o)
  unfolding new
  found-IsIndexed key hash rec s (some idx) at h =
      λ sig. h sig ∙ sym (find-absorb_at idx sig rec s.groups)
  found-IsIndexed key hash rec s none at h = λ sig.
      ap (λ o. if hash == sig then some (length s.groups) else o) (h sig)
      ∙ sym (find-append sig (new key hash rec) s.groups at)

  found-HasGroups :
      (key : BucketKey) (hash : ℕ) (rec : FlatRecord K) (s : Indexed K) (o : Option ℕ) (h n : ℕ)
      → find hash s.groups ≡ o
      → HasGroups h n s.groups
      → HasGroups h (n + one_if (hash == h)) (dedup_found key hash rec s o).groups
  unfolding new
  found-HasGroups key hash rec s (some idx) h n at (count, once) = (
    counted-absorb_at idx hash h rec s.groups at ∙ ap (λ c. c + one_if (hash == h)) count,
    signed-absorb_at idx h rec s.groups ∙ once ∙ again,
  )
    where
      again : min n 1 ≡ min (n + one_if (hash == h)) 1
      again = elim (Bool-cases (hash == h)) [
        | inl e ↦ rw e (
            omega (
              arith,
              once,
              ap (λ a. signed a s.groups) ((==_iff hash h).0 e),
              signed-some hash s.groups idx at,
            ))
        | inr e ↦ rw e (omega arith)
      ]
  found-HasGroups key hash rec s none h n at (count, once) = elim (Bool-cases (hash == h)) [
    | inl e ↦
        let absent =
          ap (λ a. signed a s.groups) (sym ((==_iff hash h).0 e)) ∙ signed-none hash s.groups at in
        rw e (
          omega (
            arith,
            counted-append h s.groups (new key hash rec ∷ []),
            count,
            counted-new key hash h rec,
            ap one_if e,
          ),
          omega
              (arith, signed-append h s.groups (new key hash rec ∷ []), once, absent, ap one_if e),
        )
    | inr e ↦ rw e (
      omega (
        arith,
        counted-append h s.groups (new key hash rec ∷ []),
        count,
        counted-new key hash h rec,
        ap one_if e,
      ),
      omega (arith, signed-append h s.groups (new key hash rec ∷ []), once, ap one_if e),
    )
  ]

  dedup_records-HasGroups :
      (key : BucketKey) (records : List (FlatRecord K)) (s : Indexed K) (h n : ℕ)
      → IsIndexed s
      → HasGroups h n s.groups
      → HasGroups h (n + hashed h records) (dedup_records xxh3_64 key records s).groups
  unfolding dedup_records
  dedup_records-HasGroups key [] s h n indexed has =
      subst (λ m. HasGroups h m s.groups) (omega arith) has
  dedup_records-HasGroups key (rec ∷ records) s h n indexed has =
      let hash = xxh3_64 rec.body in
      let at = sym (indexed hash) in
      subst (λ m. HasGroups h m (dedup_records xxh3_64 key (rec ∷ records) s).groups) (omega arith)
        (dedup_records-HasGroups key records (dedup_found key hash rec s (get hash s.hash_to_idx)) h
          (n + one_if (hash == h))
          (found-IsIndexed key hash rec s (get hash s.hash_to_idx) at indexed)
          (found-HasGroups key hash rec s (get hash s.hash_to_idx) h n at has))

  -- Exact deduplication makes one group of each hash and loses no record: whatever the records of a
  -- bucket and the hash function, for every hash there is one group if a record's body has it and none
  -- otherwise, and the groups with it count as many records as have it.
  pub dedup_bucket_lem :
      (key : BucketKey) (records : List (FlatRecord K)) (h : ℕ)
      → (counted h (dedup_bucket xxh3_64 key records) ≡ hashed h records)
        × (signed h (dedup_bucket xxh3_64 key records) ≡ min (hashed h records) 1)
  unfolding dedup_bucket
  dedup_bucket_lem key records h =
      subst
        (λ m.
          HasGroups h m
            (dedup_records xxh3_64 key records (record { hash_to_idx = []; groups = [] })).groups)
        (omega arith)
        (dedup_records-HasGroups key records (record { hash_to_idx = []; groups = [] }) h 0
          (λ sig. refl) (refl, omega arith))
