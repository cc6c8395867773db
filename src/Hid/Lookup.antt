-- ===== src/Hid/Lookup.antt =====
-- crates/core/src/hid: the lookups of both platforms.
use kmwarp.Base.{ℕ, Option, none, some}
use kmwarp.Hid.{find_value, find_key, WinScancode, win_scancode}
use kmwarp.Hid.Tables.{macos_vk_to_hid, win32_vk_to_hid, hid_to_scancode_table}

unfoldable pub macos_to_hid : ℕ → Option ℕ
macos_to_hid vk = find_value macos_vk_to_hid vk

unfoldable pub hid_to_macos : ℕ → Option ℕ
hid_to_macos hid = find_key macos_vk_to_hid hid

unfoldable pub windows_to_hid : ℕ → Option ℕ
windows_to_hid vk = find_value win32_vk_to_hid vk

unfoldable pub hid_to_scancode : ℕ → Option ℕ
hid_to_scancode hid = find_value hid_to_scancode_table hid

-- `.map(|(_, packed)| …)`
abbrev pub map_scancode : Option ℕ → Option WinScancode
map_scancode (some packed) = some (win_scancode packed)
map_scancode none = none

unfoldable pub hid_to_windows_scancode : ℕ → Option WinScancode
hid_to_windows_scancode hid = map_scancode (find_value hid_to_scancode_table hid)
