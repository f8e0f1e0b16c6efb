-- ===== src/Spool/Limits.antt =====
-- What the limits of the spool in memory leave of its records (logjetd/src/spool.rs).
use logjet.Base.{
  ℕ, zero, suc, ◌+◌, ◌-◌, ◌≤◌, ◌<◌, ◌^◌, ◌≡◌, refl, sym, ap, ◌∙◌, subst, Bool, true, false, ◌&&◌,
  List, [], ◌∷◌, ◌++◌, ltb, leb, if◌then◌else◌, length, length-append, length-drop, length-take,
  take, drop, drop-drop, saturating_add, saturating_sub, arith, inl, inr, Bool-cases, ap₂, ltb→lt,
  ltb→le,
}
use logjet.Protocol.Frame.{WireRecord}
use logjet.Spool.Buffer.{
  BufferLimit, bytes, messages, BufferSpool, record_size, total_size, tail_len, over_limit, drop_at,
  enforce_loop, enforce_limits, append,
}

-- The tally is the size of the records behind the kept ones.
abbrev pub IsTallied : BufferSpool → Type 0
IsTallied s = s.tail_bytes ≡ total_size (drop s.keep_messages s.records)

-- Whether these records pass the limit.
abbrev pub exceeds : BufferLimit → List WireRecord → Bool
exceeds (bytes max_bytes) rs = ltb max_bytes (total_size rs)
exceeds (messages max_messages) rs = ltb max_messages (length rs)

-- Of the records only the oldest ones behind the kept ones are gone, each while those behind the kept
-- ones still passed the limit, and the tally is right.
pub record IsTrimmed (s s' : BufferSpool) : Type 0 where
  pub keep : s'.keep_messages ≡ s.keep_messages
  pub limit : s'.limit ≡ s.limit
  pub front : take s.keep_messages s'.records ≡ take s.keep_messages s.records
  pub dropped : ℕ
  pub tail : drop s.keep_messages s'.records ≡ drop dropped (drop s.keep_messages s.records)
  pub needed :
      (n : ℕ) → n < dropped → exceeds s.limit (drop n (drop s.keep_messages s.records)) ≡ true
  pub tallied : IsTallied s'

-- The test of the code, on the records.
over_limit-exceeds :
    (s : BufferSpool)
    → IsTallied s
    → over_limit s ≡ exceeds s.limit (drop s.keep_messages s.records)
unfolding over_limit tail_len
over_limit-exceeds s tallied = by_limit s.limit
  where
    by_limit :
        (limit : BufferLimit)
        → elim limit [
          | bytes max_bytes ↦ ltb max_bytes s.tail_bytes
          | messages max_messages ↦
              ltb max_messages (saturating_sub (length s.records) s.keep_messages)
        ]
          ≡ exceeds limit (drop s.keep_messages s.records)
    by_limit (bytes max_bytes) = ap (ltb max_bytes) tallied
    by_limit (messages max_messages) =
        ap (ltb max_messages) (omega (arith, length-drop s.keep_messages s.records))

drop-take : {A : Type 0} (k : ℕ) (xs ys : List A) → k ≤ length xs → drop k (take k xs ++ ys) ≡ ys
drop-take zero xs ys h = refl
drop-take (suc k) [] ys h = absurd (omega arith)
drop-take (suc k) (x ∷ xs) ys h = drop-take k xs ys (omega arith)

take-take :
    {A : Type 0} (k : ℕ) (xs ys : List A) → k ≤ length xs → take k (take k xs ++ ys) ≡ take k xs
take-take zero xs ys h = refl
take-take (suc k) [] ys h = absurd (omega arith)
take-take (suc k) (x ∷ xs) ys h = ap (λ zs. x ∷ zs) (take-take k xs ys (omega arith))

module _ (s : BufferSpool) (tallied : IsTallied s) where
  untouched : IsTrimmed s s
  untouched = record {
    keep = refl;
    limit = refl;
    front = refl;
    dropped = 0;
    tail = refl;
    needed = λ n h. absurd (omega (arith, h));
    tallied = tallied;
  }

  module _ (r : WireRecord) (later : List WireRecord)
      (split : drop s.keep_messages s.records ≡ r ∷ later)
      (longer : s.keep_messages < length s.records) where
    drop_at-IsTrimmed : over_limit s ≡ true → IsTrimmed s (drop_at (r ∷ later) s)
    unfolding drop_at
    drop_at-IsTrimmed over = record {
      keep = refl;
      limit = refl;
      front = take-take s.keep_messages s.records later (omega arith);
      dropped = 1;
      tail = drop-take s.keep_messages s.records later (omega arith) ∙ ap (drop 1) (sym split);
      needed = λ n h. first_needed n h;
      tallied =
          (let e : s.tail_bytes - record_size r ≡ total_size later =
              omega (arith, tallied ∙ ap total_size split) in
            e)
          ∙ ap total_size (sym (drop-take s.keep_messages s.records later (omega arith)));
    }
      where
        first_needed :
            (n : ℕ) → n < 1 → exceeds s.limit (drop n (drop s.keep_messages s.records)) ≡ true
        first_needed zero h = sym (over_limit-exceeds s tallied) ∙ over
        first_needed (suc n) h = absurd (omega (arith, h))

IsTrimmed-trans : (a b c : BufferSpool) → IsTrimmed a b → IsTrimmed b c → IsTrimmed a c
IsTrimmed-trans a b c ab bc = record {
  keep = bc.keep ∙ ab.keep;
  limit = bc.limit ∙ ab.limit;
  front = subst (λ k. take k c.records ≡ take k b.records) ab.keep bc.front ∙ ab.front;
  dropped = ab.dropped + bc.dropped;
  tail =
      subst (λ k. drop k c.records ≡ drop bc.dropped (drop k b.records)) ab.keep bc.tail
      ∙ ap (drop bc.dropped) ab.tail
      ∙ drop-drop ab.dropped bc.dropped (drop a.keep_messages a.records);
  needed = λ n h. elim (Bool-cases (ltb n ab.dropped)) [
    | inl early ↦ ab.needed n (ltb→lt n ab.dropped early)
    | inr late ↦ later n h (ltb→le n ab.dropped late)
  ];
  tallied = bc.tallied;
}
  where
    later :
        (n : ℕ)
        → n < ab.dropped + bc.dropped
        → ab.dropped ≤ n
        → exceeds a.limit (drop n (drop a.keep_messages a.records)) ≡ true
    later n h late =
        let k = n - ab.dropped in
        ap₂ (λ limit rs. exceeds limit rs) (sym ab.limit)
          (ap (λ m. drop m (drop a.keep_messages a.records))
              (let e : n ≡ ab.dropped + k = omega (arith, late) in e)
            ∙ sym (drop-drop ab.dropped k (drop a.keep_messages a.records))
            ∙ ap (drop k) (sym ab.tail)
            ∙ ap (λ m. drop k (drop m b.records)) (sym ab.keep))
        ∙ bc.needed k (omega (arith, h, late))

drop_short : {A : Type 0} (k : ℕ) (xs : List A) → length xs ≤ k → drop k xs ≡ []
drop_short zero [] h = refl
drop_short zero (x ∷ xs) h = absurd (omega arith)
drop_short (suc k) [] h = refl
drop_short (suc k) (x ∷ xs) h = drop_short k xs (omega arith)

drop_long :
    {A : Type 0} (k : ℕ) (xs : List A)
    → k < length xs
    → (x : A) × (later : List A) × (drop k xs ≡ x ∷ later)
drop_long k [] h = absurd (omega arith)
drop_long zero (x ∷ xs) h = (x, xs, refl)
drop_long (suc k) (x ∷ xs) h = drop_long k xs (omega arith)

-- Without records behind the kept ones no limit is passed.
over_limit-kept :
    (s : BufferSpool) → IsTallied s → length s.records ≤ s.keep_messages → over_limit s ≡ false
unfolding over_limit tail_len
over_limit-kept s tallied short = by_limit s.limit
  where
    empty : s.tail_bytes ≡ 0
    empty = tallied ∙ ap total_size (drop_short s.keep_messages s.records short)

    by_limit :
        (limit : BufferLimit)
        → elim limit [
          | bytes max_bytes ↦ ltb max_bytes s.tail_bytes
          | messages max_messages ↦ ltb max_messages (length s.records - s.keep_messages)
        ]
          ≡ false
    by_limit (bytes max_bytes) = ground (arith, empty)
    by_limit (messages max_messages) = ground (arith, short)

length-drop_at :
    (s : BufferSpool) (r : WireRecord) (later : List WireRecord)
    → drop s.keep_messages s.records ≡ r ∷ later
    → s.keep_messages < length s.records
    → length (drop_at (r ∷ later) s).records + 1 ≡ length s.records
unfolding drop_at
length-drop_at s r later split longer = omega (
  arith,
  longer,
  length-append (take s.keep_messages s.records) later,
  length-take s.keep_messages s.records,
  length-drop s.keep_messages s.records,
  ap length split,
)

drop_at-keep :
    (s : BufferSpool) (xs : List WireRecord) → (drop_at xs s).keep_messages ≡ s.keep_messages
unfolding drop_at
drop_at-keep s [] = refl
drop_at-keep s (x ∷ xs) = refl

enforce_loop-IsTrimmed :
    (rounds : ℕ) (s : BufferSpool)
    → IsTallied s
    → length s.records ≤ rounds + s.keep_messages
    → IsTrimmed s (enforce_loop rounds s) × (over_limit (enforce_loop rounds s) ≡ false)
unfolding enforce_loop
enforce_loop-IsTrimmed zero s tallied h =
    (untouched s tallied, over_limit-kept s tallied (omega (arith, h)))
enforce_loop-IsTrimmed (suc rounds) s tallied h =
    elim (Bool-cases (over_limit s && ltb s.keep_messages (length s.records))) [
      | inl again ↦ rw again (
          let longer : s.keep_messages < length s.records = longer_of (over_limit s) again in
          let over : over_limit s ≡ true = over_of (over_limit s) _ again in
          let (r, later, split) = drop_long s.keep_messages s.records longer in
          let first = drop_at-IsTrimmed s tallied r later split longer over in
          let (rest, within) =
            enforce_loop-IsTrimmed rounds (drop_at (r ∷ later) s) first.tallied (
              omega
                (arith, h, length-drop_at s r later split longer, drop_at-keep s (r ∷ later))) in
          subst
            (λ xs.
              IsTrimmed s (enforce_loop rounds (drop_at xs s))
              × (over_limit (enforce_loop rounds (drop_at xs s)) ≡ false))
            (sym split) (IsTrimmed-trans s (drop_at (r ∷ later) s) _ first rest, within))
      | inr done ↦ rw done (untouched s tallied, within_of (over_limit s) refl done)
    ]
  where
    longer_of :
        (over : Bool)
        → (over && ltb s.keep_messages (length s.records)) ≡ true
        → s.keep_messages < length s.records
    longer_of over e = ground (arith, e)

    over_of : (over longer : Bool) → (over && longer) ≡ true → over ≡ true
    over_of true longer e = refl
    over_of false longer e = cc

    within_of :
        (over : Bool)
        → over_limit s ≡ over
        → (over && ltb s.keep_messages (length s.records)) ≡ false
        → over_limit s ≡ false
    within_of false e f = e
    within_of true e f = over_limit-kept s tallied (ground (arith, f))

-- The spool with the record behind the others, before the limits apply.
abbrev pub pushed : WireRecord → BufferSpool → BufferSpool
pushed r s = record s {
  records = s.records ++ (r ∷ []);
  tail_bytes = total_size (drop s.keep_messages (s.records ++ (r ∷ [])));
}

total_size-snoc :
    (k : ℕ) (rs : List WireRecord) (r : WireRecord)
    → total_size (drop k (rs ++ (r ∷ []))) ≡ (
        if leb k (length rs)
        then total_size (drop k rs) + record_size r
        else total_size (drop k rs))
total_size-snoc zero [] r = omega arith
total_size-snoc (suc zero) [] r = ground arith
total_size-snoc (suc (suc k)) [] r = ground arith
total_size-snoc zero (x ∷ rs) r = ground (arith, total_size-snoc zero rs r)
total_size-snoc (suc k) (x ∷ rs) r = ground (arith, total_size-snoc k rs r)

saturated :
    (counts : Bool) (tally size total : ℕ)
    → total < 2 ^ 64
    → total ≡ (if counts then tally + size else tally)
    → total ≡ (if counts then saturating_add tally size else tally)
saturated true tally size total h e = omega (arith, e)
saturated false tally size total h e = e

-- After `append` the spool is within its limit and its tally is right. The records kept at the front
-- are those of before with the new one behind them, and of the others only the oldest are gone, no more
-- of them than the limit asks for: before each was dropped, what was left still passed the limit. The
-- tally was right before, and the records behind the kept ones have fewer than 2 ^ 64 bytes.
pub append-IsTrimmed :
    (r : WireRecord) (s : BufferSpool)
    → IsTallied s
    → total_size (drop s.keep_messages (s.records ++ (r ∷ []))) < 2 ^ 64
    → IsTrimmed (pushed r s) (append r s) × (over_limit (append r s) ≡ false)
unfolding append enforce_limits
append-IsTrimmed r s tallied small =
    subst
      (λ tally.
        let spool = record s { records = s.records ++ (r ∷ []); tail_bytes = tally } in
        IsTrimmed (pushed r s) (enforce_loop (length spool.records) spool)
        × (over_limit (enforce_loop (length spool.records) spool) ≡ false))
      counted
      (enforce_loop-IsTrimmed (length (s.records ++ (r ∷ []))) (pushed r s) refl (omega arith))
  where
    counted : total_size (drop s.keep_messages (s.records ++ (r ∷ []))) ≡ (
        if leb s.keep_messages (length s.records)
        then saturating_add s.tail_bytes (record_size r)
        else s.tail_bytes)
    counted =
        saturated (leb s.keep_messages (length s.records)) s.tail_bytes (record_size r) _ small (
          total_size-snoc s.keep_messages s.records r
          ∙ ap (λ t. if leb s.keep_messages (length s.records) then t + record_size r else t)
              (sym tallied))
