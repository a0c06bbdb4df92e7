-- ===== src/Prelude/Ints.antt =====
-- Signed integers over the native numbers, and the bit pattern of an `i64`.
use Prim.Native.Nat.{ℕ, ◌-◌, ◌%◌, ◌^◌, ◌<◌}
use mathlib.Core.Path.{◌≡◌, ap}
use native.Mathlib.Omega.{arith}
use mathlib.Core.Logic.{inl, inr}
use trackward.Prelude.Tests.{ltb, if◌then◌else◌, Bool-cases}

-- `negsuc n` is -(n + 1).
pub data ℤ : Type 0 where
  pos : ℕ → ℤ
  negsuc : ℕ → ℤ

-- The range of an `i64`.
abbrev pub IsI64 : ℤ → Type 0
IsI64 (pos n) = n < 2 ^ 63
IsI64 (negsuc n) = n < 2 ^ 63

-- Two's complement.
unfoldable pub i64_bits : ℤ → ℕ
i64_bits (pos n) = n % 2 ^ 64
i64_bits (negsuc n) = 2 ^ 64 - 1 - n % 2 ^ 64

pub i64_bits_injective : (a b : ℤ) → IsI64 a → IsI64 b → i64_bits a ≡ i64_bits b → a ≡ b
unfolding i64_bits
i64_bits_injective (pos a) (pos b) ha hb e = ap pos (omega arith)
i64_bits_injective (pos a) (negsuc b) ha hb e = absurd (omega arith)
i64_bits_injective (negsuc a) (pos b) ha hb e = absurd (omega arith)
i64_bits_injective (negsuc a) (negsuc b) ha hb e = ap negsuc (omega arith)

pub i64_bits-lt : (a : ℤ) → i64_bits a < 2 ^ 64
unfolding i64_bits
i64_bits-lt (pos n) = omega arith
i64_bits-lt (negsuc n) = omega arith

-- `as i64` of a 64-bit unsigned number.
unfoldable pub to_i64 : ℕ → ℤ
to_i64 n = if ltb n (2 ^ 63) then pos n else negsuc (2 ^ 64 - 1 - n)

pub i64_bits-to_i64 : (n : ℕ) → n < 2 ^ 64 → i64_bits (to_i64 n) ≡ n
unfolding i64_bits to_i64
i64_bits-to_i64 n h = elim (Bool-cases (ltb n (2 ^ 63))) [
  | inl e ↦ rw e (omega arith)
  | inr e ↦ rw e (omega arith)
]
