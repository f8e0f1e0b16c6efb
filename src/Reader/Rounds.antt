-- ===== src/Reader/Rounds.antt =====
-- The loops of `scan_next_block` and `next_record` in src/reader.rs, one round at a time.
use logjet.Base.{ℕ, suc, ◌≡◌, ap, [], none, some, ok, err, Bool, true, false}
use logjet.Error.{Error}
use logjet.Codec.{Libraries}
use logjet.Reader.State.{LogjetReader}
use logjet.Reader.Scan.{scan_round, scan_loop, scan_next_block, next_loop, end_round, end_scan}

module _ (lib : Libraries) (rounds origin : ℕ) (r r' : LogjetReader) where
  pub scan_loop_err :
      (e : Error)
      → scan_round lib origin r ≡ (err e, r')
      → scan_loop lib (suc rounds) origin r ≡ some (err e, r')
  unfolding scan_loop
  scan_loop_err e h = ap (end_round (scan_loop lib rounds origin)) h

  pub scan_loop_done :
      (b : Bool)
      → scan_round lib origin r ≡ (ok (some b), r')
      → scan_loop lib (suc rounds) origin r ≡ some (ok b, r')
  unfolding scan_loop
  scan_loop_done b h = ap (end_round (scan_loop lib rounds origin)) h

  pub scan_loop_next :
      scan_round lib origin r ≡ (ok none, r')
      → scan_loop lib (suc rounds) origin r ≡ scan_loop lib rounds origin r'
  unfolding scan_loop
  scan_loop_next h = ap (end_round (scan_loop lib rounds origin)) h

module _ (lib : Libraries) (rounds : ℕ) (r r' : LogjetReader) where
  pub next_loop_err :
      (e : Error)
      → scan_next_block lib r ≡ some (err e, r')
      → next_loop lib (suc rounds) [] r ≡ some (err e, r')
  unfolding next_loop
  next_loop_err e h = ap (end_scan (λ s. next_loop lib rounds s.pending s)) h

  pub next_loop_eof :
      scan_next_block lib r ≡ some (ok false, r')
      → next_loop lib (suc rounds) [] r ≡ some (ok none, r')
  unfolding next_loop
  next_loop_eof h = ap (end_scan (λ s. next_loop lib rounds s.pending s)) h

  pub next_loop_found :
      scan_next_block lib r ≡ some (ok true, r')
      → next_loop lib (suc rounds) [] r ≡ next_loop lib rounds r'.pending r'
  unfolding next_loop
  next_loop_found h = ap (end_scan (λ s. next_loop lib rounds s.pending s)) h
