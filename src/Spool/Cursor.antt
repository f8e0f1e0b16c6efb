-- ===== src/Spool/Cursor.antt =====
-- The replay cursor of the spool in memory (logjetd/src/spool.rs): its index only saves a search.
use logjet.Base.{
  ℕ, zero, suc, ◌≤◌, ◌<◌, ◌≡◌, refl, sym, ap, ◌∙◌, subst, Bool, true, false, List, [], ◌∷◌, Option,
  none, some, ltb, leb, if◌then◌else◌, get_elem?, All, arith, lt→ltb, le→ltb, ltb→lt, ltb→le, take,
  ◌+◌, ◌⊎◌, inl, inr, Bool-cases,
}
use logjet.Protocol.Frame.{WireRecord}
use logjet.Spool.Buffer.{
  BufferSpool, BufferReplayCursor, position, aligned, newer, advance, search_next, or_search,
  next_for_cursor,
}

-- Sequence numbers never fall.
abbrev pub IsAscending : List WireRecord → Type 0
IsAscending [] = Unit
IsAscending (r ∷ rs) = All (λ (s : WireRecord). r.seq ≤ s.seq) rs × IsAscending rs

one_element : {A : Type 0} (y x : A) → some y ≡ some x → y ≡ x
one_element y x e = cc

get_elem?-All :
    {A : Type 0} (P : A → Type 0) (xs : List A) (k : ℕ) (x : A)
    → All P xs
    → get_elem? xs k ≡ some x
    → P x
get_elem?-All P [] k x h e = cc
get_elem?-All P (y ∷ ys) zero x (hy, hys) e = subst P (one_element y x e) hy
get_elem?-All P (y ∷ ys) (suc k) x (hy, hys) e = get_elem?-All P ys k x hys e

position-aligned :
    (last_seq : ℕ) (rs : List WireRecord) (k : ℕ) (before r : WireRecord)
    → IsAscending rs
    → get_elem? rs k ≡ some before
    → before.seq ≤ last_seq
    → get_elem? rs (suc k) ≡ some r
    → last_seq < r.seq
    → position last_seq rs ≡ some (suc k)
unfolding position
position-aligned last_seq [] k before r asc e old f new = cc
position-aligned last_seq (x ∷ []) k before r asc e old f new = cc
position-aligned last_seq (x ∷ (y ∷ rs)) zero before r asc e old f new =
    let x_old = subst (λ (s : WireRecord). s.seq ≤ last_seq) (sym (one_element x before e)) old in
    let y_new = subst (λ (s : WireRecord). last_seq < s.seq) (sym (one_element y r f)) new in
    rw (le→ltb last_seq x.seq x_old) (rw (lt→ltb last_seq y.seq y_new) refl)
position-aligned last_seq (x ∷ (y ∷ rs)) (suc k) before r (hx, asc) e old f new =
    let x_old : x.seq ≤ before.seq =
      get_elem?-All (λ (s : WireRecord). x.seq ≤ s.seq) (y ∷ rs) k before hx e in
    rw (le→ltb last_seq x.seq (omega (arith, x_old, old)))
      (rw (position-aligned last_seq (y ∷ rs) k before r asc e old f new) refl)

-- The first record newer than the number, with its index and what is older before it.
pub record IsFirst (last_seq : ℕ) (rs : List WireRecord) (index : ℕ) (r : WireRecord) : Type 0 where
  pub at : get_elem? rs index ≡ some r
  pub later : last_seq < r.seq
  pub passed : All (λ (q : WireRecord). q.seq ≤ last_seq) (take index rs)

-- What a cursor's step owes: if the spool has a record newer than the cursor's number, the first such
-- record and the cursor behind it, at its number; else nothing, and the cursor as it was.
abbrev pub IsNext :
    BufferReplayCursor → List WireRecord → Option WireRecord × BufferReplayCursor → Type 0
IsNext cursor rs (none, after) =
    (after ≡ cursor) × All (λ (q : WireRecord). q.seq ≤ cursor.last_seq) rs
IsNext cursor rs (some r, after) =
    (index : ℕ) × IsFirst cursor.last_seq rs index r
    × (after.next_index ≡ index + 1)
    × (after.last_seq ≡ r.seq)

-- The search finds the first newer record.
position-cases :
    (last_seq : ℕ) (rs : List WireRecord)
    → ((position last_seq rs ≡ none) × All (λ (q : WireRecord). q.seq ≤ last_seq) rs)
      ⊎ ((index : ℕ) × (r : WireRecord) × (position last_seq rs ≡ some index)
          × IsFirst last_seq rs index r)
unfolding position
position-cases last_seq [] = inl (refl, tt)
position-cases last_seq (q ∷ rs) = elim (Bool-cases (ltb last_seq q.seq)) [
  | inl new ↦
      inr (0, q, rw new refl, record { at = refl; later = ltb→lt last_seq q.seq new; passed = tt })
  | inr old ↦ elim (position-cases last_seq rs) [
    | inl (nowhere, all) ↦ inl (rw (old, nowhere) refl, (ltb→le last_seq q.seq old, all))
    | inr (index, r, found, first) ↦ inr (
      suc index,
      r,
      rw (old, found) refl,
      record {
        at = first.at;
        later = first.later;
        passed = (ltb→le last_seq q.seq old, first.passed);
      },
    )
  ]
]

search_next-IsNext :
    (rs : List WireRecord) (cursor : BufferReplayCursor)
    → IsNext cursor rs (search_next rs cursor (position cursor.last_seq rs))
search_next-IsNext rs cursor = elim (position-cases cursor.last_seq rs) [
  | inl (nowhere, all) ↦ rw nowhere (refl, all)
  | inr (index, r, found, first) ↦ rw (found, first.at) (index, first, refl, refl)
]

module _ (s : BufferSpool) (ascending : IsAscending s.records) where
  position-direct :
      (last_seq index : ℕ) (r : WireRecord)
      → aligned s.records last_seq index ≡ true
      → get_elem? s.records index ≡ some r
      → last_seq < r.seq
      → position last_seq s.records ≡ some index
  unfolding aligned
  position-direct last_seq zero r fits at new = first s.records at
    where
      first : (rs : List WireRecord) → get_elem? rs 0 ≡ some r → position last_seq rs ≡ some 0
      first [] e = cc
      first (x ∷ rs) e =
          let x_new = subst (λ (y : WireRecord). last_seq < y.seq) (sym (one_element x r e)) new in
          unfold position in rw (lt→ltb last_seq x.seq x_new) refl
  position-direct last_seq (suc index) r fits at new =
      by_before (get_elem? s.records index) refl fits
    where
      by_before :
          (before : Option WireRecord)
          → get_elem? s.records index ≡ before
          → elim before [ none ↦ false | some b ↦ leb b.seq last_seq ] ≡ true
          → position last_seq s.records ≡ some (suc index)
      by_before none e old = cc
      by_before (some b) e old =
          position-aligned last_seq s.records index b r ascending e (ground (arith, old)) at new

  -- The index only saves the search.
  pub next_for_cursor-search_next :
      (cursor : BufferReplayCursor)
      → next_for_cursor cursor s ≡ search_next s.records cursor (position cursor.last_seq s.records)
  unfolding next_for_cursor
  next_for_cursor-search_next cursor =
      by_aligned (aligned s.records cursor.last_seq cursor.next_index) refl
        (get_elem? s.records cursor.next_index) refl
    where
      by_newer :
          (r : WireRecord) (is_newer : Bool)
          → ltb cursor.last_seq r.seq ≡ is_newer
          → aligned s.records cursor.last_seq cursor.next_index ≡ true
          → get_elem? s.records cursor.next_index ≡ some r
          → or_search s.records cursor (if is_newer then some r else none)
            ≡ search_next s.records cursor (position cursor.last_seq s.records)
      by_newer r false f fits at = refl
      by_newer r true f fits at = sym (
          ap (search_next s.records cursor)
            (position-direct cursor.last_seq cursor.next_index r fits at (ground (arith, f)))
          ∙ ap (advance cursor cursor.next_index) at)

      by_aligned :
          (fits : Bool)
          → aligned s.records cursor.last_seq cursor.next_index ≡ fits
          → (at : Option WireRecord) → get_elem? s.records cursor.next_index ≡ at
          → or_search s.records cursor (if fits then newer cursor.last_seq at else none)
            ≡ search_next s.records cursor (position cursor.last_seq s.records)
      by_aligned false e at f = refl
      by_aligned true e none f = refl
      by_aligned true e (some r) f = by_newer r (ltb cursor.last_seq r.seq) refl e f

  -- In a spool whose sequence numbers never fall, `next_for_cursor` finds the first record whose number is
  -- above the cursor's, whatever the cursor's index says: it returns that record, with the cursor at
  -- its number and one behind its index; and if no record is newer, it returns none and the cursor as it
  -- was.
  pub next_for_cursor-IsNext :
      (cursor : BufferReplayCursor) → IsNext cursor s.records (next_for_cursor cursor s)
  next_for_cursor-IsNext cursor =
      subst (IsNext cursor s.records) (sym (next_for_cursor-search_next cursor))
        (search_next-IsNext s.records cursor)
