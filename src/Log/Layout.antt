-- ===== src/Log/Layout.antt =====
-- The bytes of a file of blocks, and single calls of `next_record` of src/reader.rs.
use logjet.Base.{
  ℕ, suc, ◌+◌, ◌-◌, ◌≡◌, refl, ap, ◌∙◌, List, [], ◌∷◌, ◌++◌, length, length-append, replicate, some,
  none, true, false, arith, ok, ltb, Bool-cases, inl, inr, ◌&&◌, ◌%◌,
}
use logjet.Codec.{Codec, Libraries}
use logjet.Record.{OwnedRecord}
use logjet.Source.{ahead}
use logjet.Format.Headers.{length-encode, length-encode_ext}
use logjet.Format.{encode, encode_ext}
use logjet.Writer.{padding, block_bytes}
use logjet.Reader.State.{LogjetReader}
use logjet.Reader.Scan.{scan_next_block, take_pending, next_loop, next_record}
use logjet.Reader.Rounds.{next_loop_eof, next_loop_found}
use logjet.Log.Block.{Block, header, block_image}

-- What the writer leaves behind a block.
pub padding_zeros : (alignment len : ℕ) → (k : ℕ) × (padding alignment len ≡ replicate k 0)
unfolding padding
padding_zeros alignment len = elim (Bool-cases (ltb 0 alignment && ltb 0 (len % alignment))) [
  | inl pads ↦ (alignment - len % alignment, rw pads)
  | inr fits ↦ (0, rw fits)
]

length_parts :
    (m h e c k : List ℕ)
    → length (m ++ ((h ++ (e ++ c)) ++ k))
      ≡ length m + (length h + (length e + length c) + length k)
length_parts m h e c k = simp length-append

module _ (lib : Libraries) (codec : Codec) (alignment : ℕ) (marker : List ℕ) where
  abbrev pub stored : Block → List ℕ
  stored b =
      block_image lib codec marker b ++ padding alignment (length (block_image lib codec marker b))

  unfoldable pub file_bytes : List Block → List ℕ
  file_bytes [] = []
  file_bytes (b ∷ bs) = stored b ++ file_bytes bs

  pub length-block_image :
      (b : Block)
      → length (block_image lib codec marker b) ≡ length marker + length b.compressed + 44
  unfolding block_bytes
  length-block_image b =
      length_parts marker (encode (header lib codec b)) (encode_ext b.ext) b.compressed _
      ∙ omega (arith, length-encode (header lib codec b), length-encode_ext b.ext)

pub next_record-pending :
    (lib : Libraries) (first : OwnedRecord) (rest : List OwnedRecord) (r : LogjetReader)
    → r.pending ≡ first ∷ rest
    → next_record lib r ≡ some (take_pending first rest r)
unfolding next_record next_loop
next_record-pending lib first rest r e =
    ap (λ ps. next_loop lib (suc (length (ahead r.inner))) ps r) e

pub next_record-found :
    (lib : Libraries) (first : OwnedRecord) (rest : List OwnedRecord) (r r' : LogjetReader)
    → r.pending ≡ []
    → scan_next_block lib r ≡ some (ok true, r')
    → r'.pending ≡ first ∷ rest
    → next_record lib r ≡ some (take_pending first rest r')
unfolding next_record
next_record-found lib first rest r r' none_waits scanned e =
    ap (λ ps. next_loop lib (suc (length (ahead r.inner))) ps r) none_waits
    ∙ next_loop_found lib (length (ahead r.inner)) r r' scanned
    ∙ ap (λ ps. next_loop lib (length (ahead r.inner)) ps r') e
    ∙ unfold next_loop in refl

pub next_record-eof :
    (lib : Libraries) (r r' : LogjetReader)
    → r.pending ≡ []
    → scan_next_block lib r ≡ some (ok false, r')
    → next_record lib r ≡ some (ok none, r')
unfolding next_record
next_record-eof lib r r' none_waits scanned =
    ap (λ ps. next_loop lib (suc (length (ahead r.inner))) ps r) none_waits
    ∙ next_loop_eof lib (length (ahead r.inner)) r r' scanned
