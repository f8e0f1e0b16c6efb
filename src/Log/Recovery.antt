-- ===== src/Log/Recovery.antt =====
-- The scan of src/reader.rs reaches a valid block behind whatever stands before it.
use logjet.Base.{
  ℕ, ◌+◌, ◌-◌, ◌<◌, ◌^◌, ◌≡◌, ◌≢◌, refl, sym, ap, ◌∙◌, List, ◌∷◌, ◌++◌, All, length, drop,
  drop-drop, drop-append, some, true, arith, ok,
}
use logjet.Codec.{Codec, Libraries, LibraryLaws}
use logjet.Record.{OwnedRecord}
use logjet.Source.{ahead}
use logjet.Reader.State.{ReaderConfig, ReaderStats, LogjetReader, seek_to}
use logjet.Reader.Steps.{moved, add_blocks_ok-fits, add_bytes_skipped-fits}
use logjet.Reader.Sync.{find_loop, find_next_sync, found}
use logjet.Reader.Sync.FirstSync.{first_sync, plus}
use logjet.Reader.Sync.Search.{find_loop-first_sync}
use logjet.Reader.Scan.{accept, after_block, after_sync, scan_round, scan_next_block}
use logjet.Reader.Rounds.{scan_loop_done}
use logjet.Log.Block.{
  Block, IsBlock, IsConfig, payload, block_image, past_block, try_read_block_at-block,
  ahead-past_block,
}

-- The statistics once a block has been read behind `skipped` bytes.
abbrev pub counted : ℕ → Block → ReaderStats → ReaderStats
counted skipped b s = record s {
  blocks_ok = s.blocks_ok + 1;
  bytes_skipped = s.bytes_skipped + skipped;
  total_compressed_bytes = s.total_compressed_bytes + length b.compressed;
  total_uncompressed_bytes = s.total_uncompressed_bytes + length (payload b);
}

-- No counter of the reader overflows on that block.
pub record HasRoom (skipped : ℕ) (b : Block) (s : ReaderStats) : Type 0 where
  pub blocks : s.blocks_ok + 1 < 2 ^ 64
  pub bytes : s.bytes_skipped + skipped < 2 ^ 64
  pub compressed : s.total_compressed_bytes + length b.compressed < 2 ^ 64
  pub uncompressed : s.total_uncompressed_bytes + length (payload b) < 2 ^ 64

-- The reader behind the block: its records wait, and what follows the block lies ahead.
pub record IsPastBlock (skipped : ℕ) (b : Block) (rest : List ℕ) (r r' : LogjetReader)
    : Type 0 where
  pub pending : r'.pending ≡ r.pending ++ b.records
  pub config : r'.config ≡ r.config
  pub ahead_is : ahead r'.inner ≡ rest
  pub stats : r'.stats ≡ counted skipped b r.stats

accept-fits :
    (origin p : ℕ) (records : List OwnedRecord) (r : LogjetReader)
    → r.stats.blocks_ok + 1 < 2 ^ 64
    → r.stats.bytes_skipped + (p - origin) < 2 ^ 64
    → accept origin p records r ≡ (
      ok true,
      record r {
        pending = r.pending ++ records;
        stats = record r.stats {
          blocks_ok = r.stats.blocks_ok + 1;
          bytes_skipped = r.stats.bytes_skipped + (p - origin);
        };
      },
    )
unfolding accept
accept-fits origin p records r hb hs = rw (add_blocks_ok-fits 1 r hb) (
    rw (
      add_bytes_skipped-fits (p - origin)
        (record r { stats = record r.stats { blocks_ok = r.stats.blocks_ok + 1 } }) hs))

module _ (lib : Libraries) (laws : LibraryLaws lib) (codec : Codec) (rc : ReaderConfig) (b : Block)
    (config_ok : IsConfig rc) (block_ok : IsBlock lib codec rc b) where
  -- A reader whose next sync marker begins `garbage` bytes ahead, at a valid block.
  pub record IsBefore (garbage rest : List ℕ) (r : LogjetReader) : Type 0 where
    pub config : r.config ≡ rc
    pub ahead_is : ahead r.inner ≡ garbage ++ (block_image lib codec rc.sync_marker b ++ rest)
    pub first : first_sync rc.sync_marker (ahead r.inner) ≡ some (length garbage)
    pub room : HasRoom (length garbage) b r.stats

  module _ (garbage rest : List ℕ) (r : LogjetReader) (before : IsBefore garbage rest r) where
    abbrev p : ℕ
    p = r.inner.pos + length garbage

    at_p : drop p r.inner.bytes ≡ block_image lib codec rc.sync_marker b ++ rest
    at_p =
        sym (drop-drop r.inner.pos (length garbage) r.inner.bytes)
        ∙ ap (drop (length garbage)) before.ahead_is
        ∙ drop-append garbage _

    abbrev read_past : LogjetReader
    read_past = past_block lib laws codec rc b config_ok block_ok (moved 8 (seek_to p r))

    abbrev accepted : LogjetReader
    accepted = record read_past {
      pending = r.pending ++ b.records;
      stats = record read_past.stats {
        blocks_ok = r.stats.blocks_ok + 1;
        bytes_skipped = r.stats.bytes_skipped + (p - r.inner.pos);
      };
    }

    skipped_is : p - r.inner.pos ≡ length garbage
    skipped_is = omega arith

    found_at :
        (head : ℕ) (tail : List ℕ)
        → rc.sync_marker ≡ head ∷ tail
        → All (λ m. m ≢ head) tail
        → find_loop r.config.sync_marker r.inner.pos (ahead r.inner) 0 0 ≡ some p
    found_at head tail em unique =
        ap (λ m. find_loop m r.inner.pos (ahead r.inner) 0 0)
          (ap (λ (c : ReaderConfig). c.sync_marker) before.config ∙ em)
        ∙ find_loop-first_sync head tail unique r.inner.pos (ahead r.inner)
        ∙ ap (λ m. plus r.inner.pos (first_sync m (ahead r.inner))) (sym em)
        ∙ ap (plus r.inner.pos) before.first

    scan_round-block :
        find_loop r.config.sync_marker r.inner.pos (ahead r.inner) 0 0 ≡ some p
        → scan_round lib r.inner.pos r ≡ (ok (some true), accepted)
    unfolding scan_round find_next_sync found after_sync after_block
    scan_round-block at = rw at (
        rw
          (try_read_block_at-block lib laws codec rc b config_ok block_ok p (seek_to p r) rest
            before.config at_p before.room.compressed before.room.uncompressed)
          (rw (
            accept-fits r.inner.pos p b.records read_past before.room.blocks
              (omega (arith, before.room.bytes, skipped_is)))))

    accepted-IsPastBlock : IsPastBlock (length garbage) b rest r accepted
    accepted-IsPastBlock = record {
      pending = refl;
      config = refl;
      ahead_is =
          ahead-past_block lib laws codec rc b config_ok block_ok p r rest before.config at_p
            before.room.compressed before.room.uncompressed;
      stats = λ i. record (counted (length garbage) b r.stats) {
        bytes_skipped = r.stats.bytes_skipped + skipped_is i;
      };
    }

    -- The scan returns true and leaves the reader behind the block, if the marker is the first one at
    -- or after the reader's position, its first byte does not come again in it, and no counter
    -- overflows: the block's records wait in their order, and the bytes before it are counted as
    -- skipped, whatever they are.
    pub scan_next_block-block :
        (head : ℕ) (tail : List ℕ)
        → rc.sync_marker ≡ head ∷ tail
        → All (λ m. m ≢ head) tail
        → (r' : LogjetReader) × (scan_next_block lib r ≡ some (ok true, r'))
          × IsPastBlock (length garbage) b rest r r'
    unfolding scan_next_block
    scan_next_block-block head tail em unique = (
      accepted,
      scan_loop_done lib _ r.inner.pos r accepted true
          (scan_round-block (found_at head tail em unique)),
      accepted-IsPastBlock,
    )
