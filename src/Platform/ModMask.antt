-- ===== src/Platform/ModMask.antt =====
-- The modifier mask of crates/core/src/platform.rs, a `u8` with four defined bits.
use kmwarp.Base.{ℕ, ◌-◌, Bool, ◌==◌, bit_and, bit_or}

pub record ModMask : Type 0 where
  pub bits : ℕ

abbrev pub shift : ModMask
shift = record { bits = 1 }

abbrev pub ctrl : ModMask
ctrl = record { bits = 2 }

abbrev pub alt : ModMask
alt = record { bits = 4 }

abbrev pub meta : ModMask
meta = record { bits = 8 }

-- `ModMask::default()`
abbrev pub empty : ModMask
empty = record { bits = 0 }

abbrev pub defined_bits : ℕ
defined_bits = 0x0f

-- Every bit of `other` is set in `self`.
unfoldable pub contains : ModMask → ModMask → Bool
contains self other = bit_and self.bits other.bits == other.bits

unfoldable pub insert : ModMask → ModMask → ModMask
insert self other = record { bits = bit_or self.bits other.bits }

-- `!other.0` at a `u8`.
unfoldable pub remove : ModMask → ModMask → ModMask
remove self other = record { bits = bit_and self.bits (255 - other.bits) }

unfoldable pub from_wire : ℕ → ModMask
from_wire byte = record { bits = bit_and byte defined_bits }

unfoldable pub to_wire : ModMask → ℕ
to_wire self = bit_and self.bits defined_bits
