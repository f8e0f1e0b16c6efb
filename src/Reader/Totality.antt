-- ===== src/Reader/Totality.antt =====
-- The loops of `scan_next_block` and `next_record` in src/reader.rs end on every input.
use logjet.Base.{
  ℕ, zero, suc, ◌+◌, ◌≤◌, ◌<◌, ◌≡◌, ◌≢◌, refl, ap, ◌∙◌, List, [], ◌∷◌, Option, none, some, length,
  length-drop, arith, Result, ok, err, Bool, true, false,
}
use logjet.Base.Exec.{◌>>=◌}
use logjet.Base.Keeps.{Keeps, continue-keeps, Keeps-pure, Keeps-lift, Keeps-gets, Keeps-bind}
use logjet.Error.{Error}
use logjet.Record.{OwnedRecord}
use logjet.Codec.{Libraries}
use logjet.Source.{Source, ahead, seek, read_exact-bytes, read_exact-pos}
use logjet.Reader.State.{
  ReaderConfig, LogjetReader, seek_to, read, add_compressed, add_uncompressed, add_blocks_ok,
  add_blocks_bad, add_bytes_skipped,
}
use logjet.Reader.Sync.{find_loop, step_match, find_next_sync, found}
use logjet.Reader.Block.{read_behind_marker, try_read_block_at}
use logjet.Reader.Rounds.{
  scan_loop_err, scan_loop_done, scan_loop_next, next_loop_err, next_loop_eof, next_loop_found,
}
use logjet.Reader.Scan.{
  reject, accept, at_eof, after_block, after_sync, scan_round, scan_loop, scan_next_block,
  next_loop, next_record, take_pending,
}

step_match-le : (marker : List ℕ) (matched c : ℕ) → step_match marker matched c ≤ suc matched
unfolding step_match
step_match-le marker matched c = ground arith

-- A marker that is found begins at a byte that was ahead.
find_loop_bounds :
    (marker : List ℕ) (start : ℕ) (rest : List ℕ) (matched offset p : ℕ)
    → matched ≤ offset
    → find_loop marker start rest matched offset ≡ some p
    → (start ≤ p) × (p < start + offset + length rest)
unfolding find_loop
find_loop_bounds marker start [] matched offset p h e = cc
find_loop_bounds marker start (c ∷ rest) matched offset p h e = ground (
  arith,
  step_match-le marker matched c,
  find_loop_bounds marker start rest (step_match marker matched c) (suc offset) p,
)

-- The state behind a marker at `p` that stands in the file.
module _ (bytes : List ℕ) (p : ℕ) (inside : p < length bytes) where
  pub record IsPast (r : LogjetReader) : Type 0 where
    pub same : r.inner.bytes ≡ bytes
    pub past : p < r.inner.pos

  read-IsPast : (n : ℕ) → Keeps IsPast (read n)
  unfolding read
  read-IsPast n = record {
    after = λ r h. record {
      same = read_exact-bytes n r.inner ∙ h.same;
      past = omega (arith, read_exact-pos n r.inner, ap length h.same);
    };
  }

  add_compressed-IsPast : (n : ℕ) → Keeps IsPast (add_compressed n)
  unfolding add_compressed
  add_compressed-IsPast n = record { after = λ r h. ground arith }

  add_uncompressed-IsPast : (n : ℕ) → Keeps IsPast (add_uncompressed n)
  unfolding add_uncompressed
  add_uncompressed-IsPast n = record { after = λ r h. ground arith }

  ruleset past_rules = (
    Keeps-bind, Keeps-lift, Keeps-gets, Keeps-pure, read-IsPast, add_compressed-IsPast,
    add_uncompressed-IsPast,
  )

  read_behind_marker-IsPast :
      (lib : Libraries) (config : ReaderConfig) (sync : List ℕ)
      → Keeps IsPast (read_behind_marker lib config sync)
  unfolding read_behind_marker
  read_behind_marker-IsPast lib config sync = search past_rules depth 30

  first_read :
      (n : ℕ) → 0 < n → (r : LogjetReader) → r.inner.bytes ≡ bytes → IsPast (read n (seek_to p r)).1
  unfolding read
  first_read n some_bytes r h =
      let there : Source = seek p r.inner in
      record {
        same = read_exact-bytes n there ∙ h;
        past = omega (arith, read_exact-pos n there, ap length h);
      }

  -- Whatever it returns, `try_read_block_at` leaves the position behind the marker's first byte.
  try_read_block_at-IsPast :
      (lib : Libraries) (r : LogjetReader)
      → r.inner.bytes ≡ bytes
      → IsPast (try_read_block_at lib p r).1
  unfolding try_read_block_at
  try_read_block_at-IsPast lib r h =
      continue-keeps (read 8 (seek_to p r)).0 (read_behind_marker lib r.config)
        (read 8 (seek_to p r)).1 (read_behind_marker-IsPast lib r.config)
        (first_read 8 (omega arith) r h)

-- What a round that goes on, or that has found a block, leaves behind.
pub record HasMoved (r r' : LogjetReader) : Type 0 where
  pub same : r'.inner.bytes ≡ r.inner.bytes
  pub further : r.inner.pos < r'.inner.pos
  pub inside : r.inner.pos < length r.inner.bytes

pub HasMoved-shorter :
    {r r' : LogjetReader} → HasMoved r r' → length (ahead r'.inner) < length (ahead r.inner)
HasMoved-shorter {r} {r'} m = omega (
  arith,
  length-drop r.inner.pos r.inner.bytes,
  length-drop r'.inner.pos r'.inner.bytes,
  ap length m.same,
  m.further,
  m.inside,
)

pub HasMoved-trans : {r s t : LogjetReader} → HasMoved r s → HasMoved s t → HasMoved r t
HasMoved-trans m n = record {
  same = n.same ∙ m.same;
  further = omega (arith, m.further, n.further);
  inside = m.inside;
}

after_block_moves :
    (origin p : ℕ) (res : Result Error (List OwnedRecord)) (r r' : LogjetReader) (o : Option Bool)
    → p < r.inner.pos
    → after_block origin p res r ≡ (ok o, r')
    → (r'.inner.bytes ≡ r.inner.bytes) × (p < r'.inner.pos) × (o ≢ some false)
unfolding after_block accept reject add_blocks_bad add_blocks_ok add_bytes_skipped
after_block_moves origin p (ok records) r r' o h e = ground arith
after_block_moves origin p (err x) r r' o h e = ground arith

at_eof_stops :
    (origin : ℕ) (r r' : LogjetReader) (found : Bool)
    → at_eof origin r ≡ (ok found, r')
    → found ≡ false
unfolding at_eof add_bytes_skipped
at_eof_stops origin r r' found e = ground arith

module _ (lib : Libraries) (origin : ℕ) (r : LogjetReader) where
  after_none_stops :
      (s r' : LogjetReader) (o : Option Bool)
      → after_sync lib origin none s ≡ (ok o, r')
      → o ≡ some false
  unfolding after_sync at_eof add_bytes_skipped
  after_none_stops s r' o e = ground arith

  after_some_moves :
      (p : ℕ) (r' : LogjetReader) (o : Option Bool)
      → r.inner.pos ≤ p
      → p < length r.inner.bytes
      → after_sync lib origin (some p) (seek_to p r) ≡ (ok o, r')
      → HasMoved r r' × (o ≢ some false)
  unfolding after_sync
  after_some_moves p r' o lo hi e =
      let past : IsPast r.inner.bytes p hi (try_read_block_at lib p (seek_to p r)).1 =
        try_read_block_at-IsPast r.inner.bytes p hi lib (seek_to p r) refl in
      let (same, further, more) =
        after_block_moves origin p (try_read_block_at lib p (seek_to p r)).0
          (try_read_block_at lib p (seek_to p r)).1 r' o past.past e in
      (record { same = same ∙ past.same; further = omega arith; inside = omega arith }, more)

  round_from :
      (f : Option ℕ) (r' : LogjetReader) (o : Option Bool)
      → find_loop r.config.sync_marker r.inner.pos (ahead r.inner) 0 0 ≡ f
      → (found f >>= after_sync lib origin) r ≡ (ok o, r')
      → o ≢ some false
      → HasMoved r r'
  unfolding found
  round_from none r' o ef e ne = absurd (ne (after_none_stops _ r' o e))
  round_from (some p) r' o ef e ne =
      let (lo, hi) =
        find_loop_bounds r.config.sync_marker r.inner.pos (ahead r.inner) 0 0 p (omega arith) ef in
      (after_some_moves p r' o lo (omega (arith, hi, length-drop r.inner.pos r.inner.bytes)) e).0

  scan_round_moves :
      (r' : LogjetReader) (o : Option Bool)
      → scan_round lib origin r ≡ (ok o, r')
      → o ≢ some false
      → HasMoved r r'
  unfolding scan_round find_next_sync
  scan_round_moves r' o e ne = round_from _ r' o refl e ne

-- A scan that returns has moved if it has found a block.
abbrev pub ScanOutcome : Type 0
ScanOutcome = Result Error Bool × LogjetReader

abbrev pub Returns : LogjetReader → Option ScanOutcome → Type 0
Returns r result = (out : ScanOutcome) × (result ≡ some out) × (out.0 ≡ ok true → HasMoved r out.1)

scan_loop_total :
    (lib : Libraries) (origin rounds : ℕ) (r : LogjetReader)
    → length (ahead r.inner) < rounds
    → Returns r (scan_loop lib rounds origin r)
scan_loop_total lib origin zero r h = elim h [ ]
scan_loop_total lib origin (suc rounds) r h =
    by_round (scan_round lib origin r).0 (scan_round lib origin r).1 refl
      (scan_loop_total lib origin rounds)
  where
    by_round :
        (res : Result Error (Option Bool)) (r' : LogjetReader)
        → scan_round lib origin r ≡ (res, r')
        → ((s : LogjetReader)
            → length (ahead s.inner) < rounds
            → Returns s (scan_loop lib rounds origin s))
        → Returns r (scan_loop lib (suc rounds) origin r)
    by_round (err x) r' e ih = ((err x, r'), scan_loop_err lib rounds origin r r' x e, λ q. cc)
    by_round (ok (some b)) r' e ih = (
      (ok b, r'),
      scan_loop_done lib rounds origin r r' b e,
      λ q. scan_round_moves lib origin r r' (some b) e (λ w. cc),
    )
    by_round (ok none) r' e ih =
        let moved : HasMoved r r' = scan_round_moves lib origin r r' none e (λ w. cc) in
        let (out, eq, more) = ih r' (omega (arith, HasMoved-shorter moved)) in
        (out, scan_loop_next lib rounds origin r r' e ∙ eq, λ q. HasMoved-trans moved (more q))

-- `scan_next_block` returns on every input: its rounds do not run out. If it has found a block, the
-- bytes are the same and fewer of them are ahead.
pub scan_next_block_total : (lib : Libraries) (r : LogjetReader) → Returns r (scan_next_block lib r)
unfolding scan_next_block
scan_next_block_total lib r = scan_loop_total lib r.inner.pos _ r (omega arith)

next_loop_total :
    (lib : Libraries) (rounds : ℕ) (pending : List OwnedRecord) (r : LogjetReader)
    → length (ahead r.inner) < rounds
    → (out : Result Error (Option OwnedRecord) × LogjetReader) × (next_loop lib rounds pending r
        ≡ some out)
next_loop_total lib rounds (first ∷ rest) r h =
    (take_pending first rest r, unfold next_loop in refl)
next_loop_total lib zero [] r h = elim h [ ]
next_loop_total lib (suc rounds) [] r h =
    by_scan (scan_next_block_total lib r) (next_loop_total lib rounds)
  where
    by_scan :
        Returns r (scan_next_block lib r)
        → ((pending : List OwnedRecord) (s : LogjetReader)
            → length (ahead s.inner) < rounds
            → (out : Result Error (Option OwnedRecord) × LogjetReader) × (next_loop lib rounds
                  pending s
                ≡ some out))
        → (out : Result Error (Option OwnedRecord) × LogjetReader) × (next_loop lib
              (suc rounds)
              []
              r
            ≡ some out)
    by_scan ((err e, r'), eq, more) ih = ((err e, r'), next_loop_err lib rounds r r' e eq)
    by_scan ((ok false, r'), eq, more) ih = ((ok none, r'), next_loop_eof lib rounds r r' eq)
    by_scan ((ok true, r'), eq, more) ih =
        let (out, e) = ih r'.pending r' (omega (arith, HasMoved-shorter (more refl))) in
        (out, next_loop_found lib rounds r r' eq ∙ e)

-- `next_record` returns on every input, well formed or not: its rounds do not run out.
pub next_record_total :
    (lib : Libraries) (r : LogjetReader)
    → (out : Result Error (Option OwnedRecord) × LogjetReader) × (next_record lib r ≡ some out)
unfolding next_record
next_record_total lib r = next_loop_total lib _ r.pending r (omega arith)
