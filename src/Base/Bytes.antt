-- ===== src/Base/Bytes.antt =====
-- Ranges of the unsigned machine integers, the equality of byte arrays, and the
-- UTF-8 check of Rust's `str`.
use Prim.Native.Nat.{ℕ, zero, suc, ◌+◌, ◌<◌, min}
use mathlib.Core.Path.{◌≡◌}
use mathlib.Core.Logic.{◌↔◌}
use native.Mathlib.Omega.{arith}
use mathlib.Core.Bool.{Bool, true, false, ◌&&◌}
use mathlib.Core.List.{List, [], ◌∷◌}
use kmwarp.Base.Tests.{ltb, leb, ◌==◌, if◌then◌else◌}

abbrev pub IsU8 : ℕ → Type 0
IsU8 v = v < 256

abbrev pub IsU16 : ℕ → Type 0
IsU16 v = v < 65536

abbrev pub IsU32 : ℕ → Type 0
IsU32 v = v < 4294967296

abbrev pub IsU64 : ℕ → Type 0
IsU64 v = v < 18446744073709551616

-- `usize` is 64 bits wide on the targets of the program.
abbrev pub usize_max : ℕ
usize_max = 18446744073709551615

abbrev pub saturating_add_usize : ℕ → ℕ → ℕ
saturating_add_usize a b = min (a + b) usize_max

-- `==` of byte arrays.
abbrev pub bytes_eq : List ℕ → List ℕ → Bool
bytes_eq [] [] = true
bytes_eq [] (_ ∷ _) = false
bytes_eq (_ ∷ _) [] = false
bytes_eq (a ∷ xs) (b ∷ bs) = a == b && bytes_eq xs bs

pub bytes_eq_iff : (xs ys : List ℕ) → (bytes_eq xs ys ≡ true) ↔ (xs ≡ ys)
bytes_eq_iff [] [] = ground arith
bytes_eq_iff [] (y ∷ ys) = ground arith
bytes_eq_iff (x ∷ xs) [] = ground arith
bytes_eq_iff (x ∷ xs) (y ∷ ys) = let ih = bytes_eq_iff xs ys in ground arith

-- What a lead byte asks for: how many continuation bytes follow, and the range of the first.
pub data Lead : Type 0 where
  invalid : Lead
  expect : ℕ → ℕ → ℕ → Lead

pub lead : ℕ → Lead
lead b =
    if ltb b 0x80
    then expect 0 0x80 0xbf
    else if ltb b 0xc2
    then invalid
    else if ltb b 0xe0
    then expect 1 0x80 0xbf
    else if b == 0xe0
    then expect 2 0xa0 0xbf
    else if b == 0xed
    then expect 2 0x80 0x9f
    else if ltb b 0xf0
    then expect 2 0x80 0xbf
    else if b == 0xf0
    then expect 3 0x90 0xbf
    else if ltb b 0xf4
    then expect 3 0x80 0xbf
    else if b == 0xf4
    then expect 3 0x80 0x8f
    else invalid

-- `more` continuation bytes are still due, the next of them in `lo..=hi`.
pub utf8_from : ℕ → ℕ → ℕ → List ℕ → Bool
unfolding lead
utf8_from zero lo hi [] = true
utf8_from (suc more) lo hi [] = false
utf8_from (suc more) lo hi (b ∷ bs) = leb lo b && leb b hi && utf8_from more 0x80 0xbf bs
utf8_from zero lo hi (b ∷ bs) = elim (lead b) [
  | invalid ↦ false
  | expect more lo' hi' ↦ utf8_from more lo' hi' bs
]

-- `std::str::from_utf8` accepts the bytes.
unfoldable pub is_utf8 : List ℕ → Bool
unfolding utf8_from
is_utf8 bs = utf8_from 0 0x80 0xbf bs
