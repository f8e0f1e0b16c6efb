-- ===== src/Log/File.antt =====
-- A file of blocks with zeros between them, and what `next_record` of src/reader.rs returns on it.
use logjet.Base.{
  ℕ, zero, suc, ◌+◌, ◌-◌, ◌<◌, ◌^◌, ◌≡◌, ◌≢◌, refl, sym, ap, ◌∙◌, List, [], ◌∷◌, ◌++◌, append-nil,
  All, length, replicate, some, none, false, arith, ok,
}
use logjet.Codec.{Libraries}
use logjet.Record.{OwnedRecord}
use logjet.Source.{ahead}
use logjet.Reader.State.{LogjetReader, seek_to}
use logjet.Reader.Steps.{add_bytes_skipped-fits, add_records_ok-fits}
use logjet.Reader.Sync.{find_loop, find_next_sync, found}
use logjet.Reader.Sync.FirstSync.{first_sync, plus, skip, starts_with_self}
use logjet.Reader.Sync.Search.{find_loop-first_sync}
use logjet.Reader.Scan.{at_eof, after_sync, scan_round, scan_next_block, take_pending, next_record}
use logjet.Reader.Rounds.{scan_loop_done}
use logjet.Log.Block.{Block, payload}

-- Calling `next_record` until it returns none gives these records.
pub data Yields (lib : Libraries) : LogjetReader → List OwnedRecord → Type 0 where
  stop : {r r' : LogjetReader} → next_record lib r ≡ some (ok none, r') → Yields lib r []
  more :
      {r r' : LogjetReader} {first : OwnedRecord} {rest : List OwnedRecord}
      → next_record lib r ≡ some (ok (some first), r')
      → Yields lib r' rest
      → Yields lib r (first ∷ rest)

pub take_pending-fits :
    (first : OwnedRecord) (rest : List OwnedRecord) (r : LogjetReader)
    → r.stats.records_ok + 1 < 2 ^ 64
    → take_pending first rest r ≡ (
      ok (some first),
      record r { pending = rest; stats = record r.stats { records_ok = r.stats.records_ok + 1 } },
    )
unfolding take_pending
take_pending-fits first rest r h = rw (add_records_ok-fits 1 (record r { pending = rest }) h)

unfoldable pub records_of : List Block → List OwnedRecord
records_of [] = []
records_of (b ∷ bs) = b.records ++ records_of bs

unfoldable pub uncompressed_of : List Block → ℕ
uncompressed_of [] = 0
uncompressed_of (b ∷ bs) = length (payload b) + uncompressed_of bs

-- No occurrence of the marker begins in zeros before it.
module _ (head : ℕ) (tail : List ℕ) (head_ne : head ≢ 0) where
  zeros_apart : (k : ℕ) → All (λ b. b ≢ head) (replicate k 0)
  zeros_apart zero = tt
  zeros_apart (suc k) = (λ e. head_ne (sym e), zeros_apart k)

  pub first_sync-zeros : (k : ℕ) → first_sync (head ∷ tail) (replicate k 0) ≡ none
  first_sync-zeros k =
      sym (ap (first_sync (head ∷ tail)) (append-nil (replicate k 0)))
      ∙ skip head tail (replicate k 0) [] (zeros_apart k)
      ∙ unfold first_sync in refl

  pub first_sync-marker :
      (k : ℕ) (rest : List ℕ)
      → first_sync (head ∷ tail) (replicate k 0 ++ (head ∷ tail ++ rest))
        ≡ some (length (replicate {A = ℕ} k 0))
  first_sync-marker k rest =
      skip head tail (replicate k 0) (head ∷ tail ++ rest) (zeros_apart k)
      ∙ ap (plus (length (replicate {A = ℕ} k 0))) here
      ∙ ap some (
          let e : length (replicate {A = ℕ} k 0) + 0 ≡ length (replicate {A = ℕ} k 0) =
            omega arith in
          e)
    where
      here : first_sync (head ∷ tail) (head ∷ tail ++ rest) ≡ some 0
      here = unfold first_sync in rw (starts_with_self (head ∷ tail) rest)

at_eof-fits :
    (origin : ℕ) (r : LogjetReader)
    → r.stats.bytes_skipped + (length r.inner.bytes - origin) < 2 ^ 64
    → at_eof origin r ≡ (
      ok false,
      record (seek_to (length r.inner.bytes) r) {
        stats = record r.stats {
          bytes_skipped = r.stats.bytes_skipped + (length r.inner.bytes - origin);
        };
      },
    )
unfolding at_eof
at_eof-fits origin r h =
    rw (add_bytes_skipped-fits (length r.inner.bytes - origin) (seek_to (length r.inner.bytes) r) h)

-- Where no marker is ahead, the scan reports the end of the file and counts every byte ahead as
-- skipped, if the marker's first byte does not come again in it and the counter does not overflow.
pub scan_next_block-eof :
    (lib : Libraries) (head : ℕ) (tail : List ℕ) (r : LogjetReader)
    → r.config.sync_marker ≡ head ∷ tail
    → All (λ m. m ≢ head) tail
    → first_sync (head ∷ tail) (ahead r.inner) ≡ none
    → r.stats.bytes_skipped + (length r.inner.bytes - r.inner.pos) < 2 ^ 64
    → (r' : LogjetReader) × (scan_next_block lib r ≡ some (ok false, r'))
      × (r'.stats.bytes_skipped ≡ r.stats.bytes_skipped + (length r.inner.bytes - r.inner.pos))
unfolding scan_next_block
scan_next_block-eof lib head tail r em unique nothing room =
    (_, scan_loop_done lib _ r.inner.pos r _ false at_end, refl)
  where
    not_found : find_loop r.config.sync_marker r.inner.pos (ahead r.inner) 0 0 ≡ none
    not_found =
        ap (λ m. find_loop m r.inner.pos (ahead r.inner) 0 0) em
        ∙ find_loop-first_sync head tail unique r.inner.pos (ahead r.inner)
        ∙ ap (plus r.inner.pos) nothing

    skipped : LogjetReader
    skipped = record (seek_to (length r.inner.bytes) r) {
      stats = record r.stats {
        bytes_skipped = r.stats.bytes_skipped + (length r.inner.bytes - r.inner.pos);
      };
    }

    at_end : scan_round lib r.inner.pos r ≡ (ok (some false), skipped)
    at_end =
        unfold scan_round find_next_sync found after_sync in
        rw not_found
          (rw (at_eof-fits r.inner.pos (seek_to (r.inner.pos + length (ahead r.inner)) r) room))
