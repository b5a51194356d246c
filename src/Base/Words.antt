-- ===== src/Base/Words.antt =====
-- 32-bit unsigned words: the wrap-around of `uint32_t` written out.
use Prim.Native.Nat.{ℕ, ◌+◌, ◌-◌, ◌%◌, ◌≤◌, ◌<◌, compare, Ordering}
use mathlib.Core.Bool.{Bool, true, false}
use mathlib.Core.Path.{◌≡◌}
use native.Mathlib.Omega.{arith}

abbrev pub u32_mod : ℕ
u32_mod = 4294967296

-- a - b on `uint32_t`, the elapsed time between two readings of a wrapping counter.
abbrev pub sub32 : ℕ → ℕ → ℕ
sub32 a b = (a + u32_mod - b) % u32_mod

pub sub32-le : (a b : ℕ) → a < u32_mod → b ≤ a → sub32 a b ≡ a - b
sub32-le a b ha h = omega arith

-- a + b on `uint32_t`.
abbrev pub add32 : ℕ → ℕ → ℕ
add32 a b = (a + b) % u32_mod

-- `(long)(now - deadline) >= 0` where `long` has 32 bits.
abbrev pub reached : ℕ → ℕ → Bool
reached now deadline = elim (compare (sub32 now deadline) 2147483648) [
  | Ordering.lt ↦ true
  | _ ↦ false
]
