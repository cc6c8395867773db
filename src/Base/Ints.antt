-- ===== src/Base/Ints.antt =====
-- Signed integers over the native numbers, and the casts of Rust's `i16`, `i32` and `u32`.
-- Sums and orders go through the two parts of an integer, which are numbers that `omega` reads.
use Prim.Native.Nat.{ℕ, suc, ◌+◌, ◌-◌, ◌*◌, ◌≤◌, ◌<◌}
use mathlib.Core.Bool.{Bool}
use native.Mathlib.Omega.{arith}
use kmwarp.Base.Tests.{ltb, leb, if◌then◌else◌}

-- `negsuc n` is -(n + 1).
pub data ℤ : Type 0 where
  pos : ℕ → ℤ
  negsuc : ℕ → ℤ

abbrev pub pos_part : ℤ → ℕ
pos_part (pos n) = n
pos_part (negsuc n) = 0

abbrev pub neg_part : ℤ → ℕ
neg_part (pos n) = 0
neg_part (negsuc n) = suc n

-- a - b, as an integer.
abbrev pub sub_ℕ : ℕ → ℕ → ℤ
sub_ℕ a b = if leb b a then pos (a - b) else negsuc (b - a - 1)

infixl 65 ◌+ℤ◌ ◌-ℤ◌
infix 50 ◌≤ℤ◌
abbrev pub ◌+ℤ◌ : ℤ → ℤ → ℤ
a +ℤ b = sub_ℕ (pos_part a + pos_part b) (neg_part a + neg_part b)

abbrev pub ◌-ℤ◌ : ℤ → ℤ → ℤ
a -ℤ b = sub_ℕ (pos_part a + neg_part b) (neg_part a + pos_part b)

abbrev pub ◌≤ℤ◌ : ℤ → ℤ → Type 0
a ≤ℤ b = pos_part a + neg_part b ≤ pos_part b + neg_part a

abbrev pub leb_ℤ : ℤ → ℤ → Bool
leb_ℤ a b = leb (pos_part a + neg_part b) (pos_part b + neg_part a)

-- `-(2 ^ 15) ≤ v < 2 ^ 15`
abbrev pub IsI16 : ℤ → Type 0
IsI16 v = (pos_part v < 32768) × (neg_part v ≤ 32768)

-- `-(2 ^ 31) ≤ v < 2 ^ 31`
abbrev pub IsI32 : ℤ → Type 0
IsI32 v = (pos_part v < 2147483648) × (neg_part v ≤ 2147483648)

-- `v as i32` at a `u32`: two's complement.
abbrev pub u32_as_i32 : ℕ → ℤ
u32_as_i32 v = if ltb v 2147483648 then pos v else negsuc (4294967295 - v)

abbrev pub i32_max : ℤ
i32_max = pos 2147483647

abbrev pub i32_min : ℤ
i32_min = negsuc 2147483647

-- `i32::saturating_sub`
abbrev pub saturating_sub_i32 : ℤ → ℤ → ℤ
saturating_sub_i32 a b =
    let d = a -ℤ b in if leb_ℤ i32_max d then i32_max else if leb_ℤ d i32_min then i32_min else d

pub saturating_sub_i32-IsI32 : (a b : ℤ) → IsI32 (saturating_sub_i32 a b)
saturating_sub_i32-IsI32 a b = ground arith

-- The product, before any bound.
abbrev pub mul_ℤ : ℤ → ℤ → ℤ
mul_ℤ a b =
    sub_ℕ (pos_part a * pos_part b + neg_part a * neg_part b)
      (pos_part a * neg_part b + neg_part a * pos_part b)

-- `i32::saturating_mul`
abbrev pub saturating_mul_i32 : ℤ → ℤ → ℤ
saturating_mul_i32 a b =
    let d = mul_ℤ a b in if leb_ℤ i32_max d then i32_max else if leb_ℤ d i32_min then i32_min else d

-- `v as u32` at an `i32`: two's complement.
abbrev pub i32_as_u32 : ℤ → ℕ
i32_as_u32 (pos n) = n
i32_as_u32 (negsuc n) = 4294967295 - n
