-- ===== src/Varint.antt =====
-- The unsigned varints of the record fields: `encode_varint` of src/writer.rs and `decode_varint`
-- of src/reader.rs.
pub mod RoundTrip
pub mod Decode
use mathlib.Core.Bool.{cond}
use mathlib.Core.Logic.{dite}
use mathlib.Core.WellFounded.{Acc}
use native.Mathlib.Decide.{dec_lt}
use logjet.Base.{
  ℕ, ◌+◌, ◌*◌, ◌/◌, ◌%◌, ◌^◌, ◌<◌, bit_and, bit_or, List, [], ◌∷◌, ◌++◌, arith, leb, ◌==◌, Result,
  ok, err,
}
use logjet.Base.Order.{lt_wf}
use logjet.Error.{Error, varint_too_long, truncated}

shift_shrinks : (v : ℕ) → 127 < v → v / 128 < v
shift_shrinks v h = omega arith

-- `value & 0x7f` and the last `value` are below 128, so both conversions to `u8` succeed; in the
-- loop `value >>= 7` is `value / 128`.
encode_loop : (v : ℕ) → List ℕ → Acc ◌<◌ v → List ℕ
encode_loop v output (Acc.intro _ smaller) =
    dite (dec_lt 127 v)
      (λ more.
        encode_loop (v / 128) (output ++ (bit_or (bit_and v 0x7f) 0x80 ∷ []))
          (smaller _ (shift_shrinks v more)))
      (λ _. output ++ (v ∷ []))

unfoldable pub encode_varint : ℕ → List ℕ → List ℕ
unfolding encode_loop lt_wf dec_lt shift_shrinks
encode_varint v output = encode_loop v output (lt_wf.apply v)

-- `value |= u64::from(byte & 0x7f) << shift`; the shift drops what passes bit 63.
abbrev or_group : ℕ → ℕ → ℕ → ℕ
or_group value byte shift = bit_or value (bit_and byte 0x7f * 2 ^ shift % 2 ^ 64)

-- The list is `bytes[*cursor..]`, and what is left of it stands for the new cursor.
decode_loop : List ℕ → ℕ → ℕ → Result Error (ℕ × List ℕ)
decode_loop [] value shift = err (truncated "varint")
decode_loop (byte ∷ rest) value shift =
    let value' = or_group value byte shift in
    let more = decode_loop rest value' (shift + 7) in
    cond (bit_and byte 0x80 == 0) (ok (value', rest))
      (cond (leb 64 (shift + 7)) (err varint_too_long) more)

unfoldable pub decode_varint : List ℕ → Result Error (ℕ × List ℕ)
unfolding decode_loop
decode_varint bytes = decode_loop bytes 0 0
