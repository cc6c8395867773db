-- ===== src/Hid.antt =====
-- crates/core/src/hid: the tables between key codes of macOS and Win32, USB HID usages and PS/2 scancodes.
pub mod Tables
pub mod Lookup
pub mod Bijection
use kmwarp.Base.{
  ℕ, ◌/◌, ◌%◌, Bool, true, false, Option, none, some, List, [], ◌∷◌, ◌==◌, if◌then◌else◌,
}

-- `.iter().find(|(k, _)| *k == key).map(|(_, v)| *v)`
unfoldable pub find_value : List (ℕ × ℕ) → ℕ → Option ℕ
find_value [] key = none
find_value ((k, v) ∷ rest) key =
    let later = find_value rest key in if k == key then some v else later

-- `.iter().find(|(_, v)| *v == value).map(|(k, _)| *k)`
unfoldable pub find_key : List (ℕ × ℕ) → ℕ → Option ℕ
find_key [] value = none
find_key ((k, v) ∷ rest) value =
    let later = find_key rest value in if v == value then some k else later

pub record WinScancode : Type 0 where
  pub code : ℕ
  pub extended : Bool

-- `packed >> 8 == 0xE0` on a `u16`
unfoldable pub is_extended_scancode : ℕ → Bool
is_extended_scancode packed = packed / 256 == 224

-- `packed & 0x00FF`
unfoldable pub scancode_low_byte : ℕ → ℕ
scancode_low_byte packed = packed % 256

abbrev pub win_scancode : ℕ → WinScancode
win_scancode packed = record { code = packed % 256; extended = packed / 256 == 224 }
