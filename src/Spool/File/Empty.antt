-- ===== src/Spool/File/Empty.antt =====
-- A `FileSpool` of logjetd/src/spool.rs with an empty segment and nothing else.
use logjet.Base.{ℕ, ◌≡◌, refl, sym, subst, [], some, arith, true}
use logjet.Codec.{Codec, Libraries, LibraryLaws}
use logjet.Writer.{with_config}
use logjet.Reader.State.{default_config}
use logjet.Log.Flushing.{IsFitting}
use logjet.Spool.File.Buffered.{new_file}
use logjet.Spool.File.State.{FileSpool}
use logjet.Spool.File.Holds.{config_of, HoldEach, IsNumbered, Takes, IsOnDisk}
use logjet.Spool.File.Flushing.{IsOnDisk-Takes}
use logjet.Spool.File.Rotating.{empty-IsOnDisk}
use logjet.Spool.File.Appending.{Held}
use logjet.Spool.File.Newer.{newer}
use logjet.Spool.File.Refinement.{Represents}

module _ (lib : Libraries) (laws : LibraryLaws lib) (codec : Codec) (alignment capacity rounds : ℕ)
    (fitting : IsFitting lib (config_of codec alignment) default_config) where
  -- A spool with an empty segment, and nothing else.
  pub nothing-Held :
      (seq ts calls : ℕ) (s : FileSpool)
      → s.codec ≡ codec
      → s.block_alignment ≡ alignment
      → s.max_total_bytes ≡ 0
      → s.older ≡ []
      → s.open_segment_id ≡ some s.active_segment_id
      → s.active_writer ≡ with_config (new_file calls) (config_of codec alignment)
      → Held lib codec alignment capacity rounds fitting seq ts [] s
  nothing-Held seq ts calls s is_codec is_alignment unlimited none_older current fresh = record {
    olds = [];
    now = [];
    holds = record {
      codec_is = is_codec;
      alignment_is = is_alignment;
      unlimited = unlimited;
      current = current;
      older = subst (λ fs. HoldEach lib codec alignment fs []) (sym none_older) tt;
      numbered = subst (IsNumbered 0 s.active_segment_id) (sym none_older) (omega arith);
      taken = subst (Takes lib codec alignment capacity fitting seq ts []) (sym fresh) (
          IsOnDisk-Takes lib codec alignment capacity rounds fitting seq ts []
            (with_config (new_file calls) (config_of codec alignment))
            (empty-IsOnDisk lib codec alignment capacity rounds fitting calls));
      below = tt;
      topped = record { below = λ k e. tt };
    };
    records_are = refl;
  }

  -- It stands for the promise without records.
  pub nothing-Represents :
      (seq ts calls n : ℕ) (s : FileSpool)
      → s.codec ≡ codec
      → s.block_alignment ≡ alignment
      → s.max_total_bytes ≡ 0
      → s.older ≡ []
      → s.open_segment_id ≡ some s.active_segment_id
      → s.active_writer ≡ with_config (new_file calls) (config_of codec alignment)
      → s.consumed_through_seq ≡ n
      → (h : Represents lib laws codec alignment capacity rounds fitting seq ts true
          (record { records = []; consumed = n })
          s)
        × (h.left ≡ [])
  unfolding nothing-Held newer
  nothing-Represents seq ts calls n s is_codec is_alignment unlimited none_older current fresh
        consumed =
      (
        record {
          left = [];
          held =
              nothing-Held seq ts calls s is_codec is_alignment unlimited none_older current fresh;
          same = refl;
          consumed = consumed;
          on_disk = λ e.
              subst (λ w. IsOnDisk lib codec alignment capacity fitting [] w) (sym fresh)
                (empty-IsOnDisk lib codec alignment capacity rounds fitting calls);
        },
        refl,
      )
