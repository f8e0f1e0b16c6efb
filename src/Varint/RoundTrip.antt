-- ===== src/Varint/RoundTrip.antt =====
-- What `encode_varint` writes in plain arithmetic, and that `decode_varint` reads it back.
use mathlib.Core.Bool.{cond}
use mathlib.Core.WellFounded.{Acc}
use native.Mathlib.Nat.{div-add-mod}
use native.Mathlib.Numerals.{towards_suc}
use logjet.Base.{
  ℕ, zero, suc, ◌+◌, ◌*◌, ◌/◌, ◌%◌, ◌^◌, ◌≤◌, ◌<◌, ◌≡◌, ap, bit_and, bit_or, List, [], ◌∷◌, ◌++◌,
  append_assoc, arith, ltb, length, ok, IsU64,
}
use logjet.Base.Bits.{low_bits, top_bit, set_top_bit, bit_or_disjoint}
use logjet.Base.Order.{lt_wf}
use logjet.Varint.{encode_loop, encode_varint, decode_loop, decode_varint, or_group}

-- Groups of seven bits, lowest first, all but the last with the top bit set: at most `k + 1` bytes.
pub groups : ℕ → ℕ → List ℕ
groups zero v = v ∷ []
groups (suc k) v =
    let tail = groups k (v / 128) in cond (ltb 127 v) ((v % 128 + 128) ∷ tail) (v ∷ [])

-- The byte that the loop pushes for a number with more groups to come.
pushed_byte : (v : ℕ) → bit_or (bit_and v 0x7f) 0x80 ≡ v % 128 + 128
pushed_byte v = rw (low_bits v) (set_top_bit (v % 128) (omega arith))

encode_loop-groups :
    (k v : ℕ) (output : List ℕ) (w : Acc ◌<◌ v)
    → v < 128 ^ suc k
    → encode_loop v output w ≡ output ++ groups k v
unfolding encode_loop groups
encode_loop-groups zero v output (Acc.intro _ smaller) h = ground arith
encode_loop-groups (suc k) v output (Acc.intro _ smaller) h = grind (
  arith,
  pushed_byte v,
  λ (w : Acc ◌<◌ (v / 128)).
      encode_loop-groups k (v / 128) (output ++ ((v % 128 + 128) ∷ [])) w (omega arith),
  append_assoc output ((v % 128 + 128) ∷ []) (groups k (v / 128)),
)

pub encode_varint-groups :
    (v : ℕ) (output : List ℕ) → IsU64 v → encode_varint v output ≡ output ++ groups 9 v
unfolding encode_varint
encode_varint-groups v output h = encode_loop-groups 9 v output (lt_wf.apply v) (omega arith)

groups_size : (k v : ℕ) → (1 ≤ length (groups k v)) × (length (groups k v) ≤ suc k)
unfolding groups
groups_size zero v = omega arith
groups_size (suc k) v = ground (arith, groups_size k (v / 128))

-- A varint takes 1 to 10 bytes.
pub length-groups : (v : ℕ) → (1 ≤ length (groups 9 v)) × (length (groups 9 v) ≤ 10)
length-groups v = groups_size 9 v

-- One round of the decoder, where the group still fits 64 bits.
or_group_add :
    (value byte shift : ℕ)
    → value < 2 ^ shift
    → byte % 128 * 2 ^ shift < 2 ^ 64
    → or_group value byte shift ≡ value + byte % 128 * 2 ^ shift
or_group_add value byte shift hv fits =
    rw (low_bits byte)
      (rw (small (byte % 128 * 2 ^ shift) fits) (bit_or_disjoint shift value (byte % 128) hv))
  where
    small : (n : ℕ) → n < 2 ^ 64 → n % 2 ^ 64 ≡ n
    small n h = omega arith

last_group :
    (v value shift : ℕ) (rest : List ℕ)
    → v < 128
    → value < 2 ^ shift
    → v * 2 ^ shift < 2 ^ 64
    → decode_loop (v ∷ rest) value shift ≡ ok (value + v * 2 ^ shift, rest)
unfolding decode_loop
last_group v value shift rest h hv fits =
    let low : v % 128 ≡ v = omega arith in
    ground (arith, top_bit v, rw low at (or_group_add value v shift hv))

inner_group :
    (g value shift : ℕ) (rest : List ℕ)
    → g < 128
    → shift < 57
    → value < 2 ^ shift
    → g * 2 ^ shift < 2 ^ 64
    → decode_loop ((g + 128) ∷ rest) value shift
      ≡ decode_loop rest (value + g * 2 ^ shift) (shift + 7)
unfolding decode_loop
inner_group g value shift rest h hs hv fits =
    let low : (g + 128) % 128 ≡ g = omega arith in
    ground (arith, top_bit (g + 128), rw low at (or_group_add value (g + 128) shift hv))

next_power : (s : ℕ) → 2 ^ (s + 7) ≡ 128 * 2 ^ s
next_power s = simp towards_suc (omega arith)

-- The number still to be read is its lowest group and the rest.
split_number : (v s : ℕ) → v * 2 ^ s ≡ v % 128 * 2 ^ s + v / 128 * 2 ^ (s + 7)
split_number v s = omega (
  arith,
  ap (λ (t : ℕ). t * 2 ^ s) (div-add-mod v 128),
  ap (λ (t : ℕ). v / 128 * t) (next_power s),
)

group_fits : (value g s : ℕ) → value < 2 ^ s → g < 128 → value + g * 2 ^ s < 2 ^ (s + 7)
group_fits value g s hv hg = rw next_power (grind arith)

decode_loop-groups :
    (k v value shift : ℕ) (rest : List ℕ)
    → v < 128 ^ suc k
    → shift + 7 * k ≤ 63
    → value < 2 ^ shift
    → v * 2 ^ shift < 2 ^ 64
    → decode_loop (groups k v ++ rest) value shift ≡ ok (value + v * 2 ^ shift, rest)
unfolding groups
decode_loop-groups zero v value shift rest h hs hv fits =
    last_group v value shift rest (omega arith) hv fits
decode_loop-groups (suc k) v value shift rest h hs hv fits = ground (
  arith,
  last_group v value shift rest,
  split_number v shift,
  group_fits value (v % 128) shift,
  inner_group (v % 128) value shift (groups k (v / 128) ++ rest),
  decode_loop-groups k (v / 128) (value + v % 128 * 2 ^ shift) (shift + 7) rest (omega arith),
)

pub decode_varint-groups :
    (v : ℕ) (rest : List ℕ) → IsU64 v → decode_varint (groups 9 v ++ rest) ≡ ok (v, rest)
unfolding decode_varint
decode_varint-groups v rest h = ground (arith, decode_loop-groups 9 v 0 0 rest)

-- For every u64 `v`, `decode_varint` on what `encode_varint` appends to an empty buffer, followed by
-- any bytes, returns `v` and exactly those bytes.
pub decode_varint-encode_varint :
    (v : ℕ) (rest : List ℕ) → IsU64 v → decode_varint (encode_varint v [] ++ rest) ≡ ok (v, rest)
decode_varint-encode_varint v rest h =
    rw (encode_varint-groups v [] h) (decode_varint-groups v rest h)
