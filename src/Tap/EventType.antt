-- ===== src/Tap/EventType.antt =====
-- The `etypes` of crates/server/src/platform/macos/tap.rs.
use kmwarp.Base.{ℕ}

abbrev pub left_mouse_down : ℕ
left_mouse_down = 1

abbrev pub left_mouse_up : ℕ
left_mouse_up = 2

abbrev pub right_mouse_down : ℕ
right_mouse_down = 3

abbrev pub right_mouse_up : ℕ
right_mouse_up = 4

abbrev pub mouse_moved : ℕ
mouse_moved = 5

abbrev pub left_mouse_dragged : ℕ
left_mouse_dragged = 6

abbrev pub right_mouse_dragged : ℕ
right_mouse_dragged = 7

abbrev pub key_down : ℕ
key_down = 10

abbrev pub key_up : ℕ
key_up = 11

abbrev pub flags_changed : ℕ
flags_changed = 12

abbrev pub scroll_wheel : ℕ
scroll_wheel = 22

abbrev pub other_mouse_down : ℕ
other_mouse_down = 25

abbrev pub other_mouse_up : ℕ
other_mouse_up = 26

abbrev pub other_mouse_dragged : ℕ
other_mouse_dragged = 27

abbrev pub tap_disabled_by_timeout : ℕ
tap_disabled_by_timeout = 0xfffffffe

abbrev pub tap_disabled_by_user_input : ℕ
tap_disabled_by_user_input = 0xffffffff
