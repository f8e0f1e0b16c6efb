-- ===== src/Base/Checked.antt =====
-- The checked and saturating operations of `u64` and `usize`, and the order of their results.
use Prim.Native.Nat.{ℕ, ◌+◌, ◌-◌, ◌^◌, ◌≤◌, ◌<◌, min}
use mathlib.Core.Path.{◌≡◌}
use mathlib.Core.Option.{Option, none, some}
use native.Mathlib.Omega.{arith}
use logjet.Base.Tests.{ltb, leb, if◌then◌else◌}

unfoldable pub checked_add : ℕ → ℕ → Option ℕ
checked_add a b = if ltb (a + b) (2 ^ 64) then some (a + b) else none

unfoldable pub checked_add_u32 : ℕ → ℕ → Option ℕ
checked_add_u32 a b = if ltb (a + b) (2 ^ 32) then some (a + b) else none

unfoldable pub checked_sub : ℕ → ℕ → Option ℕ
checked_sub a b = if leb b a then some (a - b) else none

abbrev pub saturating_add : ℕ → ℕ → ℕ
saturating_add a b = min (a + b) (2 ^ 64 - 1)

-- `-` on ℕ stops at 0, as `saturating_sub` does.
abbrev pub saturating_sub : ℕ → ℕ → ℕ
saturating_sub a b = a - b

pub checked_add-fits : (a b : ℕ) → a + b < 2 ^ 64 → checked_add a b ≡ some (a + b)
unfolding checked_add
checked_add-fits a b h = ground arith

pub checked_add_u32-fits : (a b : ℕ) → a + b < 2 ^ 32 → checked_add_u32 a b ≡ some (a + b)
unfolding checked_add_u32
checked_add_u32-fits a b h = ground arith

pub checked_sub-fits : (a b : ℕ) → b ≤ a → checked_sub a b ≡ some (a - b)
unfolding checked_sub
checked_sub-fits a b h = ground arith
