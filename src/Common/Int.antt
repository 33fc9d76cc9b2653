-- ===== src/Common/Int.antt =====
-- Signed integers over the native numbers, and their 64-bit wrap-around.
use runetale.Common.Tests.{ltb, leb, ◌==◌, if◌then◌else◌}
use Prim.Native.Nat.{ℕ, suc, ◌+◌, ◌-◌, ◌%◌, ◌^◌, ◌≤◌, ◌<◌}
use mathlib.Core.Path.{◌≡◌}
use mathlib.Core.Bool.{Bool, true, ◌&&◌}
use native.Mathlib.Omega.{arith}

-- `negsuc n` is -(n + 1).
pub data ℤ : Type 0 where
  pos : ℕ → ℤ
  negsuc : ℕ → ℤ

abbrev pub pos_part : ℤ → ℕ
pos_part (pos n) = n
pos_part (negsuc n) = 0

abbrev pub neg_part : ℤ → ℕ
neg_part (pos n) = 0
neg_part (negsuc n) = suc n

abbrev pub sub_ℕ : ℕ → ℕ → ℤ
sub_ℕ a b = if leb b a then pos (a - b) else negsuc (b - a - 1)

infixl 65 ◌+ℤ◌ ◌-ℤ◌
infix 50 ◌≤ℤ◌
unfoldable pub ◌+ℤ◌ : ℤ → ℤ → ℤ
a +ℤ b = sub_ℕ (pos_part a + pos_part b) (neg_part a + neg_part b)

unfoldable pub ◌-ℤ◌ : ℤ → ℤ → ℤ
a -ℤ b = sub_ℕ (pos_part a + neg_part b) (neg_part a + pos_part b)

abbrev pub ◌≤ℤ◌ : ℤ → ℤ → Type 0
a ≤ℤ b = pos_part a + neg_part b ≤ pos_part b + neg_part a

abbrev pub ltb_ℤ : ℤ → ℤ → Bool
ltb_ℤ a b = ltb (pos_part a + neg_part b) (pos_part b + neg_part a)

abbrev pub eqb_ℤ : ℤ → ℤ → Bool
eqb_ℤ a b = (pos_part a == pos_part b) && (neg_part a == neg_part b)

abbrev two_63 : ℕ
two_63 = 2 ^ 63

abbrev two_64 : ℕ
two_64 = 2 ^ 64

-- The integer that a 64-bit pattern stands for.
abbrev signed64 : ℕ → ℤ
signed64 w = if ltb w two_63 then pos w else negsuc (two_64 - w - 1)

-- An int64 result: the value modulo 2 ^ 64, read as a signed number.
unfoldable pub wrap64 : ℤ → ℤ
wrap64 (pos n) = signed64 (n % two_64)
wrap64 (negsuc n) = signed64 (two_64 - 1 - n % two_64)

-- The values of an int64.
abbrev pub Fits64 : ℤ → Type 0
Fits64 a = (pos_part a < two_63) × (neg_part a ≤ two_63)

pub wrap64_fits : (a : ℤ) → Fits64 (wrap64 a)
unfolding wrap64
wrap64_fits (pos n) = ground arith
wrap64_fits (negsuc n) = ground arith

pub wrap64_of_fits : (a : ℤ) → Fits64 a → wrap64 a ≡ a
unfolding wrap64
wrap64_of_fits (pos n) h = ground arith
wrap64_of_fits (negsuc n) h = ground arith

pub eqb_ℤ→eq : (a b : ℤ) → eqb_ℤ a b ≡ true → a ≡ b
eqb_ℤ→eq a b h = ground arith
