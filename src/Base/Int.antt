-- ===== src/Base/Int.antt =====
-- Go's `int`: integers over the native numbers, with the two's-complement wrap of 64 bits.
use Prim.Native.Nat.{ℕ, suc, ◌+◌, ◌-◌, ◌%◌, ◌^◌, ◌≤◌}
use mathlib.Core.Path.{◌≡◌, refl}
use mathlib.Core.Bool.{Bool}
use native.Mathlib.Omega.{arith}
use mlops.Base.Tests.{ltb, leb, if◌then◌else◌}

-- `negsuc n` is -(n + 1).
pub data ℤ : Type 0 where
  pos : ℕ → ℤ
  negsuc : ℕ → ℤ

abbrev pub pos_part : ℤ → ℕ
pos_part (pos n) = n
pos_part (negsuc n) = 0

abbrev pub neg_part : ℤ → ℕ
neg_part (pos n) = 0
neg_part (negsuc n) = suc n

-- a - b, as an integer.
abbrev pub sub_ℕ : ℕ → ℕ → ℤ
sub_ℕ a b = if leb b a then pos (a - b) else negsuc (b - a - 1)

-- a - b, where it stays in the range of `int`.
abbrev pub sub_ℤ : ℤ → ℤ → ℤ
sub_ℤ a b = sub_ℕ (pos_part a + neg_part b) (pos_part b + neg_part a)

infix 50 ◌≤ℤ◌
abbrev pub ◌≤ℤ◌ : ℤ → ℤ → Type 0
a ≤ℤ b = pos_part a + neg_part b ≤ pos_part b + neg_part a

abbrev pub ltb_ℤ : ℤ → ℤ → Bool
ltb_ℤ a b = ltb (pos_part a + neg_part b) (pos_part b + neg_part a)

-- The bit pattern of an integer, modulo 2^64.
bits64 : ℤ → ℕ
bits64 (pos n) = n % 2 ^ 64
bits64 (negsuc n) = 2 ^ 64 - 1 - n % 2 ^ 64

-- The integer that a bit pattern stands for.
from_bits64 : ℕ → ℤ
from_bits64 w = if ltb w (2 ^ 63) then pos w else negsuc (2 ^ 64 - 1 - w)

infixl 65 ◌+ℤ◌
-- `a + b` on Go's 64-bit `int`, which wraps.
unfoldable pub ◌+ℤ◌ : ℤ → ℤ → ℤ
unfolding bits64 from_bits64
a +ℤ b = from_bits64 ((bits64 a + bits64 b) % 2 ^ 64)

-- The `int` that a count of n stands at, after n increments from 0.
unfoldable pub wrap64 : ℕ → ℤ
unfolding from_bits64
wrap64 n = from_bits64 (n % 2 ^ 64)

pub wrap64-suc : (n : ℕ) → wrap64 n +ℤ pos 1 ≡ wrap64 (suc n)
unfolding wrap64 ◌+ℤ◌
wrap64-suc n = ground arith

pub wrap64-one : wrap64 1 ≡ pos 1
unfolding wrap64
wrap64-one = refl
