-- ===== src/Varint/Decode.antt =====
-- `decode_varint` on any bytes, well formed or not.
use logjet.Base.{ℕ, ◌+◌, ◌*◌, ◌≤◌, ◌<◌, ◌≡◌, List, [], ◌∷◌, arith, length, ok}
use logjet.Varint.{decode_loop, decode_varint, or_group}

-- After `j` bytes the shift is `7 * j`, and it stays below 64.
decode_loop_takes :
    (bytes : List ℕ) (value shift j v : ℕ) (rest : List ℕ)
    → shift ≡ 7 * j
    → shift < 64
    → decode_loop bytes value shift ≡ ok (v, rest)
    → (length rest < length bytes) × (length bytes + j ≤ length rest + 10)
unfolding decode_loop
decode_loop_takes [] value shift j v rest hs hj e = cc
decode_loop_takes (b ∷ bs) value shift j v rest hs hj e =
    ground (arith, decode_loop_takes bs (or_group value b shift) (shift + 7) (j + 1) v rest)

-- A successful decode consumes 1 to 10 bytes of the input.
pub decode_varint_takes :
    (bytes : List ℕ) (v : ℕ) (rest : List ℕ)
    → decode_varint bytes ≡ ok (v, rest)
    → (length rest < length bytes) × (length bytes ≤ length rest + 10)
unfolding decode_varint
decode_varint_takes bytes v rest e = ground (arith, decode_loop_takes bytes 0 0 0 v rest)
