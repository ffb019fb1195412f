-- ===== src/Prelude/Integer.antt =====
-- The signed integers that an `int` holds, and their order. Each is read through two natural
-- numbers, its positive and its negative part, so that order facts are linear arithmetic.
use Prim.Native.Nat.{ℕ, suc, ◌+◌, ◌≤◌, ◌<◌}
use mathlib.Core.Path.{◌≡◌}
use mathlib.Core.Bool.{Bool, true}
use native.Mathlib.Omega.{arith}
use funcodes.Prelude.Tests.{ltb, ◌==◌}

-- `negsuc n` is -(n + 1).
pub data ℤ : Type 0 where
  pos : ℕ → ℤ
  negsuc : ℕ → ℤ

abbrev pub pos_part : ℤ → ℕ
pos_part (pos n) = n
pos_part (negsuc n) = 0

abbrev pub neg_part : ℤ → ℕ
neg_part (pos n) = 0
neg_part (negsuc n) = suc n

infix 50 ◌≤ℤ◌ ◌<ℤ◌
abbrev pub ◌≤ℤ◌ : ℤ → ℤ → Type 0
a ≤ℤ b = pos_part a + neg_part b ≤ pos_part b + neg_part a

abbrev pub ◌<ℤ◌ : ℤ → ℤ → Type 0
a <ℤ b = pos_part a + neg_part b < pos_part b + neg_part a

-- `a < b` on `int`.
abbrev pub lt : ℤ → ℤ → Bool
lt a b = ltb (pos_part a + neg_part b) (pos_part b + neg_part a)

-- `a == b` on `int`.
abbrev pub eq : ℤ → ℤ → Bool
eq a b = pos_part a + neg_part b == pos_part b + neg_part a

pub eq→≡ : (a b : ℤ) → eq a b ≡ true → a ≡ b
eq→≡ a b h = ground arith

pub eq_refl : (a : ℤ) → eq a a ≡ true
eq_refl a = ground arith
