-- ===== src/Common/Int.antt =====
-- Go's `int` where it can be negative: as a sign and a magnitude, and as a 64-bit pattern.
use Prim.Native.Nat.{ℕ, ◌^◌}
use mathlib.Core.Bool.{Bool, false}
use tailsync.Common.Tests.{leb, nat_eqb}

pub data ℤ : Type 0 where
  pos : ℕ → ℤ
  negsuc : ℕ → ℤ

-- A 64-bit pattern that stands for a negative `int`.
abbrev pub negative : ℕ → Bool
negative w = leb (2 ^ 63) w

-- What a test `n > 0` lets through: the value, and zero below it.
abbrev pub clamp : ℤ → ℕ
clamp (pos n) = n
clamp (negsuc n) = 0

-- `==` on `int`
abbrev pub int_eqb : ℤ → ℤ → Bool
int_eqb (pos m) (pos n) = nat_eqb m n
int_eqb (pos m) (negsuc n) = false
int_eqb (negsuc m) (pos n) = false
int_eqb (negsuc m) (negsuc n) = nat_eqb m n
