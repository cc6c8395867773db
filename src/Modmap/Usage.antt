-- ===== src/Modmap/Usage.antt =====
-- The named HID usages of crates/core/src/hid/mod.rs that the modifier remap is about.
use kmwarp.Base.{ℕ}

abbrev pub left_ctrl : ℕ
left_ctrl = 0xe0

abbrev pub left_shift : ℕ
left_shift = 0xe1

abbrev pub left_alt : ℕ
left_alt = 0xe2

abbrev pub left_gui : ℕ
left_gui = 0xe3

abbrev pub right_ctrl : ℕ
right_ctrl = 0xe4

abbrev pub right_shift : ℕ
right_shift = 0xe5

abbrev pub right_alt : ℕ
right_alt = 0xe6

abbrev pub right_gui : ℕ
right_gui = 0xe7
