-- ===== src/Reader/Sync/Search.antt =====
-- `find_next_sync` of src/reader.rs against a search that tries every position.
use mathlib.Core.Option
use logjet.Base.{
  ℕ, suc, ◌+◌, ◌-◌, ◌≤◌, ◌≡◌, ◌≢◌, refl, sym, ap, ◌∙◌, subst, true, false, List, [], ◌∷◌, ◌++◌,
  append-nil, append_assoc, length-append, ==_refl, ap₂, Option, none, some, ◌==◌, ==_iff,
  if◌then◌else◌, length, All, arith, Bool-cases, inl, inr,
}
use logjet.Base.{ok}
use logjet.Source.{ahead}
use logjet.Reader.State.{LogjetReader}
use logjet.Reader.Sync.{find_loop, matches_at, step_match, found, find_next_sync}
use logjet.Reader.Sync.FirstSync.{
  starts_with, first_sync, plus, plus-zero, plus-suc, plus-plus, plus-map-suc, skip_one, skip,
  mismatch, too_short, starts_with_self, get_elem?-middle,
}

-- One round of the loop, by what the byte is.
module _ (marker : List ℕ) (start c : ℕ) (rest : List ℕ) (matched offset : ℕ) where
  round_found :
      matches_at marker matched c ≡ true
      → suc matched ≡ length marker
      → find_loop marker start (c ∷ rest) matched offset ≡ some (start + offset + 1 - length marker)
  unfolding find_loop
  round_found h e = ground arith

  round_hit :
      matches_at marker matched c ≡ true
      → suc matched ≢ length marker
      → find_loop marker start (c ∷ rest) matched offset
        ≡ find_loop marker start rest (suc matched) (suc offset)
  unfolding find_loop step_match
  round_hit h e = rw h (ground arith)

  round_miss :
      (again : ℕ)
      → matches_at marker matched c ≡ false
      → (if matches_at marker 0 c then 1 else 0) ≡ again
      → find_loop marker start (c ∷ rest) matched offset
        ≡ find_loop marker start rest again (suc offset)
  unfolding find_loop step_match
  round_miss again h e = rw (h, e) refl

All-front : (P : ℕ → Type 0) (xs ys : List ℕ) → All P (xs ++ ys) → All P xs
All-front P [] ys h = tt
All-front P (x ∷ xs) ys (hx, hxs) = (hx, All-front P xs ys hxs)

module _ (head : ℕ) (tail : List ℕ) (unique : All (λ b. b ≢ head) tail) where
  -- What was matched before a byte that does not go on is no start of an occurrence.
  miss :
      (done todo : List ℕ) (t : ℕ) (xs : List ℕ)
      → head ∷ tail ≡ done ++ (t ∷ todo)
      → starts_with (head ∷ tail) (done ++ xs) ≡ false
      → first_sync (head ∷ tail) (done ++ xs) ≡ plus (length done) (first_sync (head ∷ tail) xs)
  unfolding first_sync
  miss [] todo t xs e h = sym (plus-zero _)
  miss (d ∷ done) todo t xs e h = rw h (
      ap (Option.map suc)
        (skip head tail done xs (All-front (λ b. b ≢ head) done (t ∷ todo) tail_unique))
      ∙ plus-suc (length done) _)
    where
      tail_unique : All (λ b. b ≢ head) (done ++ (t ∷ todo))
      tail_unique = subst (All (λ b. b ≢ head)) (let p : tail ≡ done ++ (t ∷ todo) = cc in p) unique

  -- The end of the input: what was matched is not the whole marker.
  miss_end :
      (done todo : List ℕ) (t : ℕ)
      → head ∷ tail ≡ done ++ (t ∷ todo)
      → first_sync (head ∷ tail) (done ++ []) ≡ none
  miss_end done todo t e =
      miss done todo t [] e (rw (append-nil, e) (too_short done todo t)) ∙ unfold first_sync in refl

  first_sync_here : (rest : List ℕ) → first_sync (head ∷ tail) (head ∷ tail ++ rest) ≡ some 0
  unfolding first_sync
  first_sync_here rest = rw (starts_with_self (head ∷ tail) rest)

  -- The test of one byte, where `done` has been matched and `t ∷ todo` is what is left of the marker.
  matches_next :
      (done todo : List ℕ) (t c : ℕ)
      → head ∷ tail ≡ done ++ (t ∷ todo)
      → matches_at (head ∷ tail) (length done) c ≡ (c == t)
  unfolding matches_at
  matches_next done todo t c e =
      ap (λ m. matches_at m (length done) c) e ∙ rw (get_elem?-middle done todo t, matches_at)

  length_marker :
      (done todo : List ℕ) (t : ℕ)
      → head ∷ tail ≡ done ++ (t ∷ todo)
      → length (head ∷ tail) ≡ suc (length done) + length todo
  length_marker done todo t e = ap length e ∙ omega (arith, length-append done (t ∷ todo))

  regroup : (done xs : List ℕ) (t : ℕ) → done ++ (t ∷ xs) ≡ (done ++ (t ∷ [])) ++ xs
  regroup done xs t = sym (append_assoc done (t ∷ []) xs)

  module _ (start : ℕ) (rest : List ℕ) (offset : ℕ) (done : List ℕ) (h : length done ≤ offset) where
    hit_last :
        (t : ℕ)
        → head ∷ tail ≡ done ++ (t ∷ [])
        → find_loop (head ∷ tail) start (t ∷ rest) (length done) offset
          ≡ plus (start + offset - length done) (first_sync (head ∷ tail) (done ++ (t ∷ rest)))
    hit_last t e =
        round_found (head ∷ tail) start t rest (length done) offset
          (matches_next done [] t t e ∙ ==_refl t) (sym (length_marker done [] t e ∙ omega arith))
        ∙ ap some (omega (arith, length_marker done [] t e))
        ∙ ap (plus (start + offset - length done)) (
            sym (
              ap (first_sync (head ∷ tail)) (regroup done rest t ∙ ap (λ m. m ++ rest) (sym e))
              ∙ first_sync_here rest))

    hit_more :
        (t t' : ℕ) (todo : List ℕ)
        → head ∷ tail ≡ done ++ (t ∷ t' ∷ todo)
        → find_loop (head ∷ tail) start rest (length (done ++ (t ∷ []))) (suc offset)
          ≡ plus
              (start + suc offset - length (done ++ (t ∷ [])))
              (first_sync (head ∷ tail) ((done ++ (t ∷ [])) ++ rest))
        → find_loop (head ∷ tail) start (t ∷ rest) (length done) offset
          ≡ plus (start + offset - length done) (first_sync (head ∷ tail) (done ++ (t ∷ rest)))
    hit_more t t' todo e ih =
        let one_more : length (done ++ (t ∷ [])) ≡ suc (length done) =
          omega (arith, length-append done (t ∷ [])) in
        round_hit (head ∷ tail) start t rest (length done) offset
          (matches_next done (t' ∷ todo) t t e ∙ ==_refl t)
          (λ q. omega (arith, length_marker done (t' ∷ todo) t e, q))
        ∙ (rw one_more at ih)
        ∙ ap₂ plus
            (let p : start + suc offset - suc (length done) ≡ start + offset - length done =
                omega arith in
              p)
            (ap (first_sync (head ∷ tail)) (sym (regroup done rest t)))

    not_here :
        (t c : ℕ) (todo : List ℕ)
        → head ∷ tail ≡ done ++ (t ∷ todo)
        → (c == t) ≡ false
        → first_sync (head ∷ tail) (done ++ (c ∷ rest))
          ≡ plus (length done) (first_sync (head ∷ tail) (c ∷ rest))
    not_here t c todo e ne = miss done todo t (c ∷ rest) e (
        ap (λ m. starts_with m (done ++ (c ∷ rest))) e
        ∙ mismatch done todo t c rest (λ q. cc (q, ne, ==_refl c)))

    -- The byte starts the marker anew.
    miss_head :
        (t t' : ℕ) (todo todo' : List ℕ)
        → head ∷ tail ≡ done ++ (t ∷ todo)
        → tail ≡ t' ∷ todo'
        → (head == t) ≡ false
        → find_loop (head ∷ tail) start rest 1 (suc offset)
          ≡ plus (start + suc offset - 1) (first_sync (head ∷ tail) (head ∷ rest))
        → find_loop (head ∷ tail) start (head ∷ rest) (length done) offset
          ≡ plus (start + offset - length done) (first_sync (head ∷ tail) (done ++ (head ∷ rest)))
    miss_head t t' todo todo' e et ne ih =
        round_miss (head ∷ tail) start head rest (length done) offset 1
          (matches_next done todo t head e ∙ ne) (unfold matches_at in rw (==_refl head))
        ∙ ih
        ∙ ap (λ k. plus k (first_sync (head ∷ tail) (head ∷ rest)))
            (let p : start + suc offset - 1 ≡ start + offset - length done + length done =
                omega arith in
              p)
        ∙ sym (plus-plus _ (length done) _)
        ∙ ap (plus (start + offset - length done)) (sym (not_here t head todo e ne))

    miss_other :
        (t c : ℕ) (todo : List ℕ)
        → head ∷ tail ≡ done ++ (t ∷ todo)
        → (c == t) ≡ false
        → (c == head) ≡ false
        → find_loop (head ∷ tail) start rest 0 (suc offset)
          ≡ plus (start + suc offset - 0) (first_sync (head ∷ tail) rest)
        → find_loop (head ∷ tail) start (c ∷ rest) (length done) offset
          ≡ plus (start + offset - length done) (first_sync (head ∷ tail) (done ++ (c ∷ rest)))
    miss_other t c todo e ne nh ih =
        round_miss (head ∷ tail) start c rest (length done) offset 0
          (matches_next done todo t c e ∙ ne) (unfold matches_at in rw nh)
        ∙ ih
        ∙ ap (λ k. plus k (first_sync (head ∷ tail) rest))
            (let p : start + suc offset - 0 ≡ suc (start + offset - length done + length done) =
                omega arith in
              p)
        ∙ sym (plus-map-suc _ (first_sync (head ∷ tail) rest))
        ∙ ap (plus _) (sym (skip_one head tail c rest (λ q. cc (q, nh, ==_refl head))))
        ∙ sym (plus-plus _ (length done) _)
        ∙ ap (plus (start + offset - length done)) (sym (not_here t c todo e ne))

  -- A byte that is the marker's first but not the next one shows that the marker has a second byte.
  second_byte :
      (done todo : List ℕ) (t : ℕ)
      → head ∷ tail ≡ done ++ (t ∷ todo)
      → (head == t) ≡ false
      → (t' : ℕ) × (todo' : List ℕ) × (tail ≡ t' ∷ todo')
  second_byte [] todo t e ne = absurd (cc (let p : head ≡ t = cc in p, ne, ==_refl t))
  second_byte (d ∷ []) todo t e ne = (t, todo, cc)
  second_byte (d ∷ d' ∷ done) todo t e ne = (d', done ++ (t ∷ todo), cc)

  -- The loop from a state in which `done` has been matched and `t ∷ todo` has not.
  abbrev Finds : ℕ → List ℕ → Type 0
  Finds start rest =
      (done todo : List ℕ) (t offset : ℕ)
      → head ∷ tail ≡ done ++ (t ∷ todo)
      → length done ≤ offset
      → find_loop (head ∷ tail) start rest (length done) offset
        ≡ plus (start + offset - length done) (first_sync (head ∷ tail) (done ++ rest))

  Finds-hit :
      (start : ℕ) (rest : List ℕ)
      → Finds start rest
      → (done todo : List ℕ) (t offset : ℕ) → head ∷ tail ≡ done ++ (t ∷ todo)
      → length done ≤ offset
      → find_loop (head ∷ tail) start (t ∷ rest) (length done) offset
        ≡ plus (start + offset - length done) (first_sync (head ∷ tail) (done ++ (t ∷ rest)))
  Finds-hit start rest ih done [] t offset e h = hit_last start rest offset done h t e
  Finds-hit start rest ih done (t' ∷ todo) t offset e h =
      hit_more start rest offset done h t t' todo e (
        ih (done ++ (t ∷ [])) todo t' (suc offset) (e ∙ regroup done (t' ∷ todo) t)
          (omega (arith, length-append done (t ∷ []))))

  Finds-again :
      (start : ℕ) (rest : List ℕ)
      → Finds start rest
      → (done todo : List ℕ) (t offset : ℕ) → head ∷ tail ≡ done ++ (t ∷ todo)
      → length done ≤ offset
      → (head == t) ≡ false
      → find_loop (head ∷ tail) start (head ∷ rest) (length done) offset
        ≡ plus (start + offset - length done) (first_sync (head ∷ tail) (done ++ (head ∷ rest)))
  Finds-again start rest ih done todo t offset e h ne =
      let (t', todo', et) = second_byte done todo t e ne in
      miss_head start rest offset done h t t' todo todo' e et ne
        (ih (head ∷ []) todo' t' (suc offset) (ap (λ m. head ∷ m) et) (omega arith))

  Finds-step : (start c : ℕ) (rest : List ℕ) → Finds start rest → Finds start (c ∷ rest)
  Finds-step start c rest ih done todo t offset e h = elim (Bool-cases (c == t)) [
    | inl hit ↦
        subst
          (λ b.
            find_loop (head ∷ tail) start (b ∷ rest) (length done) offset
            ≡ plus (start + offset - length done) (first_sync (head ∷ tail) (done ++ (b ∷ rest))))
          (sym ((==_iff c t).0 hit)) (Finds-hit start rest ih done todo t offset e h)
    | inr other ↦ elim (Bool-cases (c == head)) [
      | inl again ↦
          let same : head ≡ c = sym ((==_iff c head).0 again) in
          subst
            (λ b.
              find_loop (head ∷ tail) start (b ∷ rest) (length done) offset
              ≡ plus (start + offset - length done) (first_sync (head ∷ tail) (done ++ (b ∷ rest))))
            same (Finds-again start rest ih done todo t offset e h (ap (λ b. b == t) same ∙ other))
      | inr nothing ↦
          miss_other start rest offset done h t c todo e other nothing
            (ih [] tail head (suc offset) refl (omega arith))
    ]
  ]

  Finds-all : (start : ℕ) (rest : List ℕ) → Finds start rest
  Finds-all start [] done todo t offset e h = rw (miss_end done todo t e) (unfold find_loop in refl)
  Finds-all start (c ∷ rest) done todo t offset e h =
      Finds-step start c rest (Finds-all start rest) done todo t offset e h

  -- From its initial state the loop returns the first position of the marker.
  pub find_loop-first_sync :
      (start : ℕ) (rest : List ℕ)
      → find_loop (head ∷ tail) start rest 0 0 ≡ plus start (first_sync (head ∷ tail) rest)
  find_loop-first_sync start rest =
      Finds-all start rest [] tail head 0 refl (omega arith)
      ∙ ap (λ k. plus k (first_sync (head ∷ tail) rest))
          (let p : start + 0 - 0 ≡ start = omega arith in p)

-- For a marker whose first byte does not come again in it, `find_next_sync` returns the first
-- position of the marker at or after the reader's position, and none exactly if there is none.
pub find_next_sync-first_sync :
    (r : LogjetReader) (head : ℕ) (tail : List ℕ)
    → r.config.sync_marker ≡ head ∷ tail
    → All (λ b. b ≢ head) tail
    → (find_next_sync r).0 ≡ ok (plus r.inner.pos (first_sync (head ∷ tail) (ahead r.inner)))
unfolding find_next_sync
find_next_sync-first_sync r head tail em unique =
    split (find_loop r.config.sync_marker r.inner.pos (ahead r.inner) 0 0)
    ∙ ap ok (
        ap (λ m. find_loop m r.inner.pos (ahead r.inner) 0 0) em
        ∙ find_loop-first_sync head tail unique r.inner.pos (ahead r.inner))
  where
    split : (o : Option ℕ) → (found o r).0 ≡ ok o
    split none = refl
    split (some n) = refl
