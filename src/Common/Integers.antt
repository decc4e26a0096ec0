-- ===== src/Common/Integers.antt =====
-- Signed integers, as far as their tests: Go's int32 and int64 by value.
use Prim.Native.Nat.{ℕ, suc, ◌+◌, ◌≤◌, ◌%◌}
use mathlib.Core.Bool.{Bool, false}
use gardener_extension_provi.Common.Tests.{nat_eq, ltb}

-- a number, or one below zero: `negsuc n` is -(n + 1)
pub data ℤ : Type 0 where
  pos : ℕ → ℤ
  negsuc : ℕ → ℤ

abbrev pub int_eq : ℤ → ℤ → Bool
int_eq (pos m) (pos n) = nat_eq m n
int_eq (negsuc m) (negsuc n) = nat_eq m n
int_eq _ _ = false

-- an order and a test go through the two parts of an integer
abbrev pub pos_part : ℤ → ℕ
pos_part (pos n) = n
pos_part (negsuc n) = 0

abbrev pub neg_part : ℤ → ℕ
neg_part (pos n) = 0
neg_part (negsuc n) = suc n

infix 50 ◌≤ℤ◌
abbrev pub ◌≤ℤ◌ : ℤ → ℤ → Type 0
a ≤ℤ b = pos_part a + neg_part b ≤ pos_part b + neg_part a

abbrev pub ltb_ℤ : ℤ → ℤ → Bool
ltb_ℤ a b = ltb (pos_part a + neg_part b) (pos_part b + neg_part a)

-- Go's a % n, compared with 0: the sign of a does not matter
abbrev pub has_remainder : ℤ → ℕ → Bool
has_remainder a n = ltb 0 ((pos_part a + neg_part a) % n)
