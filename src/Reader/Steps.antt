-- ===== src/Reader/Steps.antt =====
-- The reads and the counters of the reader, where they succeed.
use logjet.Base.{ℕ, ◌+◌, ◌<◌, ◌^◌, ◌≡◌, ap, subst, List, ◌++◌, length, ok, checked_add-fits}
use logjet.Source.{ahead, seek, ahead-seek, read_exact_lem}
use logjet.Reader.State.{
  LogjetReader, set_sum, read, add_compressed, add_uncompressed, add_blocks_ok, add_blocks_bad,
  add_bytes_skipped, add_records_ok,
}

-- The reader with its position moved.
abbrev pub moved : ℕ → LogjetReader → LogjetReader
moved n r = record r { inner = seek (r.inner.pos + n) r.inner }

pub read_lem :
    (n : ℕ) (xs ys : List ℕ) (r : LogjetReader)
    → length xs ≡ n
    → ahead r.inner ≡ xs ++ ys
    → read n r ≡ (ok xs, moved n r)
unfolding read
read_lem n xs ys r len e =
    subst (λ k. read k r ≡ (ok xs, moved k r)) len (rw (read_exact_lem xs ys r.inner e))

pub ahead-moved :
    (n : ℕ) (xs ys : List ℕ) (r : LogjetReader)
    → length xs ≡ n
    → ahead r.inner ≡ xs ++ ys
    → ahead (moved n r).inner ≡ ys
ahead-moved n xs ys r len e =
    subst (λ k. ahead (moved k r).inner ≡ ys) len (ahead-seek xs ys r.inner e)

module _ (n : ℕ) (r : LogjetReader) where
  pub add_compressed-fits :
      r.stats.total_compressed_bytes + n < 2 ^ 64
      → add_compressed n r ≡ (
        ok tt,
        record r {
          stats = record r.stats { total_compressed_bytes = r.stats.total_compressed_bytes + n };
        },
      )
  unfolding add_compressed
  add_compressed-fits h =
      ap
        (λ o. set_sum (λ k s. record s { total_compressed_bytes = k }) "total_compressed_bytes" o r)
        (checked_add-fits r.stats.total_compressed_bytes n h)

  pub add_uncompressed-fits :
      r.stats.total_uncompressed_bytes + n < 2 ^ 64
      → add_uncompressed n r ≡ (
        ok tt,
        record r {
          stats = record r.stats {
            total_uncompressed_bytes = r.stats.total_uncompressed_bytes + n;
          };
        },
      )
  unfolding add_uncompressed
  add_uncompressed-fits h =
      ap
        (λ o.
          set_sum (λ k s. record s { total_uncompressed_bytes = k }) "total_uncompressed_bytes" o r)
        (checked_add-fits r.stats.total_uncompressed_bytes n h)

  pub add_blocks_ok-fits :
      r.stats.blocks_ok + n < 2 ^ 64
      → add_blocks_ok n r
        ≡ (ok tt, record r { stats = record r.stats { blocks_ok = r.stats.blocks_ok + n } })
  unfolding add_blocks_ok
  add_blocks_ok-fits h =
      ap (λ o. set_sum (λ k s. record s { blocks_ok = k }) "blocks_ok" o r)
        (checked_add-fits r.stats.blocks_ok n h)

  pub add_blocks_bad-fits :
      r.stats.blocks_bad + n < 2 ^ 64
      → add_blocks_bad n r
        ≡ (ok tt, record r { stats = record r.stats { blocks_bad = r.stats.blocks_bad + n } })
  unfolding add_blocks_bad
  add_blocks_bad-fits h =
      ap (λ o. set_sum (λ k s. record s { blocks_bad = k }) "blocks_bad" o r)
        (checked_add-fits r.stats.blocks_bad n h)

  pub add_bytes_skipped-fits :
      r.stats.bytes_skipped + n < 2 ^ 64
      → add_bytes_skipped n r
        ≡ (ok tt, record r { stats = record r.stats { bytes_skipped = r.stats.bytes_skipped + n } })
  unfolding add_bytes_skipped
  add_bytes_skipped-fits h =
      ap (λ o. set_sum (λ k s. record s { bytes_skipped = k }) "bytes_skipped" o r)
        (checked_add-fits r.stats.bytes_skipped n h)

  pub add_records_ok-fits :
      r.stats.records_ok + n < 2 ^ 64
      → add_records_ok n r
        ≡ (ok tt, record r { stats = record r.stats { records_ok = r.stats.records_ok + n } })
  unfolding add_records_ok
  add_records_ok-fits h =
      ap (λ o. set_sum (λ k s. record s { records_ok = k }) "records_ok" o r)
        (checked_add-fits r.stats.records_ok n h)
