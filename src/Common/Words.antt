-- ===== src/Common/Words.antt =====
-- Unsigned 32-bit arithmetic, the range of a size_t, and the bound that a bit mask puts on an index.
use Prim.Native.Nat.{
  ℕ, zero, suc, ◌+◌, ◌-◌, ◌/◌, ◌%◌, ◌^◌, ◌≤◌, ◌<◌, min, bit_and, digits, bit_and-bitwise,
}
use mathlib.Core.Path.{◌≡◌}
use native.Mathlib.Omega.{arith}

abbrev pub u32_mod : ℕ
u32_mod = 2 ^ 32

-- A size_t wraps around there.
abbrev pub size_mod : ℕ
size_mod = 2 ^ 64

unfoldable pub inc32 : ℕ → ℕ
inc32 n = (n + 1) % u32_mod

unfoldable pub dec32 : ℕ → ℕ
dec32 n = (n + (u32_mod - 1)) % u32_mod

pub inc32_lem : (n : ℕ) → n + 1 < u32_mod → inc32 n ≡ n + 1
unfolding inc32
inc32_lem n h = omega arith

pub dec32_lem : (n : ℕ) → 0 < n → n < u32_mod → dec32 n ≡ n - 1
unfolding dec32
dec32_lem n p h = omega arith

-- `a & b` keeps no bit that `b` lacks; the fuel bounds the number of digits.
and_digits-le : (n a b : ℕ) → digits (λ _. zero) min n a b ≤ b
and_digits-le zero a b = omega arith
and_digits-le (suc n) zero b = omega arith
and_digits-le (suc n) (suc a) b = omega (arith, and_digits-le n (suc a / 2) (b / 2))

pub bit_and-le : (a b : ℕ) → bit_and a b ≤ b
bit_and-le a b = omega (arith, bit_and-bitwise a b, and_digits-le a a b)
