-- ===== src/Writer/Failure.antt =====
-- `flush_block` of src/writer.rs when it fails.
use logjet.Base.{ℕ, List, [], ◌∷◌, ◌≡◌, refl, Result, ok, err, Bool, true, false, if◌then◌else◌}
use logjet.Base.Keeps.{Keeps, Keeps-lift, Keeps-gets}
use logjet.Base.Fails.{FailsKeeping, FailsKeeping-modify, FailsKeeping-bind}
use logjet.Error.{ErrorKind, Error}
use logjet.Codec.{Libraries}
use logjet.Writer.{LogjetWriter, is_empty, write_inner, write_padding, write_block, flush_block}

-- The open block, and the configuration, are those of `w`.
pub record IsBuffered {W : Type 0} (w w' : LogjetWriter W) : Type 0 where
  pub config : w'.config ≡ w.config
  pub payload_buf : w'.payload_buf ≡ w.payload_buf
  pub block_base_seq : w'.block_base_seq ≡ w.block_base_seq
  pub block_base_ts_unix_ns : w'.block_base_ts_unix_ns ≡ w.block_base_ts_unix_ns
  pub record_count : w'.record_count ≡ w.record_count

module _ (lib : Libraries) {W : Type 0} (write_all : List ℕ → W → Result ErrorKind (Unit {0}) × W)
    (w₀ : LogjetWriter W) where
  write_inner-Keeps : (bytes : List ℕ) → Keeps (IsBuffered w₀) (write_inner lib write_all bytes)
  unfolding write_inner
  write_inner-Keeps bytes = record {
    after = λ w h. record {
      config = h.config;
      payload_buf = h.payload_buf;
      block_base_seq = h.block_base_seq;
      block_base_ts_unix_ns = h.block_base_ts_unix_ns;
      record_count = h.record_count;
    };
  }

  write_padding-Keeps :
      (zeroes : List ℕ) → Keeps (IsBuffered w₀) (write_padding lib write_all zeroes)
  unfolding write_padding
  write_padding-Keeps [] = record { after = λ w h. h }
  write_padding-Keeps (z ∷ zeroes) = write_inner-Keeps (z ∷ zeroes)

  ruleset failing_rules = (
    FailsKeeping-bind, FailsKeeping-modify, Keeps-gets, Keeps-lift, write_inner-Keeps,
    write_padding-Keeps,
  )

  write_block-FailsKeeping : FailsKeeping (IsBuffered w₀) (write_block lib write_all)
  unfolding write_block
  write_block-FailsKeeping = search failing_rules depth 30

-- When `flush_block` returns an error, whichever step it comes from and whatever the sink did, the
-- open block and its bases and count are as they were, so no buffered record is lost.
pub flush_block-IsBuffered :
    (lib : Libraries) {W : Type 0} (write_all : List ℕ → W → Result ErrorKind (Unit {0}) × W)
    (w : LogjetWriter W) (e : Error)
    → (flush_block lib write_all w).0 ≡ err e
    → IsBuffered w (flush_block lib write_all w).1
unfolding flush_block
flush_block-IsBuffered lib write_all w e failed = by_buffer (is_empty w.payload_buf) failed
  where
    unchanged : IsBuffered w w
    unchanged = record {
      config = refl;
      payload_buf = refl;
      block_base_seq = refl;
      block_base_ts_unix_ns = refl;
      record_count = refl;
    }

    by_buffer :
        (empty : Bool)
        → (if empty then (ok tt, w) else write_block lib write_all w).0 ≡ err e
        → IsBuffered w (if empty then (ok tt, w) else write_block lib write_all w).1
    by_buffer true failed = unchanged
    by_buffer false failed = (write_block-FailsKeeping lib write_all w).after w e failed unchanged
