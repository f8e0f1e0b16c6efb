-- ===== src/Base/Bits.antt =====
-- Bit masks as arithmetic: tables over one byte, and `|` of numbers with no bit in common.
use Prim.Native.Nat.{
  ℕ, zero, suc, ◌+◌, ◌*◌, ◌/◌, ◌%◌, ◌^◌, ◌≤◌, ◌<◌, min, max, bit_and, bit_or, digits,
  bit_and-bitwise, bit_or-bitwise,
}
use mathlib.Core.Path.{◌≡◌, refl, ap, ◌∙◌}
use mathlib.Core.Bool.{Bool, true, ◌&&◌}
use native.Mathlib.Omega.{arith}
use logjet.Base.Tests.{◌==◌, ==_iff}

-- A test of every number below `top`, by evaluation.
passes : (ℕ → Bool) → ℕ → Bool
passes test zero = true
passes test (suc top) = passes test top && test top

passes_lem : (test : ℕ → Bool) (top v : ℕ) → v < top → passes test top ≡ true → test v ≡ true
unfolding passes
passes_lem test zero v below e = absurd (omega arith)
passes_lem test (suc top) v below e = ground (arith, passes_lem test top v)

keeps_top_bit : passes (λ b. bit_and b 0x80 == b / 128 * 128) 256 ≡ true
unfolding passes
keeps_top_bit = refl

adds_top_bit : passes (λ b. bit_or b 0x80 == b + 128) 128 ≡ true
unfolding passes
adds_top_bit = refl

pub top_bit : (b : ℕ) → b < 256 → bit_and b 0x80 ≡ b / 128 * 128
top_bit b h = (==_iff _ _).0 (passes_lem _ 256 b h keeps_top_bit)

pub set_top_bit : (b : ℕ) → b < 128 → bit_or b 0x80 ≡ b + 128
set_top_bit b h = (==_iff _ _).0 (passes_lem _ 128 b h adds_top_bit)

-- The native operations digit by digit. The count of digits to go does not matter once it is large
-- enough.
module _ (z : ℕ → ℕ) (f : ℕ → ℕ → ℕ) where
  digits_count : (n m a b : ℕ) → a ≤ n → a ≤ m → digits z f n a b ≡ digits z f m a b
  digits_count zero zero a b p q = refl
  digits_count zero (suc m) zero b p q = refl
  digits_count zero (suc m) (suc a) b p q = absurd (omega arith)
  digits_count (suc n) zero zero b p q = refl
  digits_count (suc n) zero (suc a) b p q = absurd (omega arith)
  digits_count (suc n) (suc m) zero b p q = refl
  digits_count (suc n) (suc m) (suc a) b p q =
      omega (arith, digits_count n m (suc a / 2) (b / 2) (omega arith) (omega arith))

  digits_half :
      (a b : ℕ) → digits z f a (suc a / 2) (b / 2) ≡ digits z f (suc a / 2) (suc a / 2) (b / 2)
  digits_half a b = digits_count a (suc a / 2) (suc a / 2) (b / 2) (omega arith) (omega arith)

zero-bit_or : (b : ℕ) → bit_or 0 b ≡ b
zero-bit_or b = bit_or-bitwise 0 b

bit_or_halves : (a b : ℕ) → bit_or a b ≡ bit_or (a / 2) (b / 2) * 2 + max (a % 2) (b % 2)
bit_or_halves zero b = omega (arith, zero-bit_or b, zero-bit_or (b / 2))
bit_or_halves (suc a) b = omega (
  arith,
  bit_or-bitwise (suc a) b,
  bit_or-bitwise (suc a / 2) (b / 2),
  digits_half (λ y. y) max a b,
)

zero-bit_and : (b : ℕ) → bit_and 0 b ≡ 0
zero-bit_and b = bit_and-bitwise 0 b

bit_and_halves : (a b : ℕ) → bit_and a b ≡ bit_and (a / 2) (b / 2) * 2 + min (a % 2) (b % 2)
bit_and_halves zero b = omega (arith, zero-bit_and b, zero-bit_and (b / 2))
bit_and_halves (suc a) b = omega (
  arith,
  bit_and-bitwise (suc a) b,
  bit_and-bitwise (suc a / 2) (b / 2),
  digits_half (λ _. zero) min a b,
)

-- The lowest `s` binary digits, with `mask s` the number of `s` ones.
abbrev mask : ℕ → ℕ
mask zero = 0
mask (suc s) = mask s * 2 + 1

abbrev lowest : ℕ → ℕ → ℕ
lowest zero a = 0
lowest (suc s) a = lowest s (a / 2) * 2 + a % 2

bit_and-zero : (n a : ℕ) → a ≤ n → bit_and a 0 ≡ 0
bit_and-zero n zero h = zero-bit_and 0
bit_and-zero zero (suc a) h = absurd (omega arith)
bit_and-zero (suc n) (suc a) h =
    omega (arith, bit_and_halves (suc a) 0, bit_and-zero n (suc a / 2) (omega arith))

bit_and-mask : (s a : ℕ) → bit_and a (mask s) ≡ lowest s a
bit_and-mask zero a = bit_and-zero a a (omega arith)
bit_and-mask (suc s) a =
    let half : (mask s * 2 + 1) / 2 ≡ mask s = omega arith in
    omega (arith, rw half at (bit_and_halves a (mask s * 2 + 1)), bit_and-mask s (a / 2))

-- `a & 0x7f`
pub low_bits : (a : ℕ) → bit_and a 0x7f ≡ a % 128
low_bits a = omega (arith, bit_and-mask 7 a)

double : (s : ℕ) → 2 ^ suc s ≡ 2 * 2 ^ s
double s = omega arith

-- `|` of a number below `2 ^ s` and a multiple of `2 ^ s` is their sum.
pub bit_or_disjoint : (s a b : ℕ) → a < 2 ^ s → bit_or a (b * 2 ^ s) ≡ a + b * 2 ^ s
bit_or_disjoint zero zero b h = zero-bit_or _ ∙ omega arith
bit_or_disjoint zero (suc a) b h = absurd (omega arith)
bit_or_disjoint (suc s) a b h =
    let twice : b * 2 ^ suc s ≡ b * (2 * 2 ^ s) = ap (λ (t : ℕ). b * t) (double s) in
    let half : b * 2 ^ suc s / 2 ≡ b * 2 ^ s = omega arith in
    let step : bit_or a (b * 2 ^ suc s)
        ≡ bit_or (a / 2) (b * 2 ^ s) * 2 + max (a % 2) (b * 2 ^ suc s % 2) =
      rw half at (bit_or_halves a (b * 2 ^ suc s)) in
    omega (arith, step, bit_or_disjoint s (a / 2) b (omega arith))
