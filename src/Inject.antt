-- ===== src/Inject.antt =====
-- crates/client/src/platform/windows/inject.rs: `WinInputSink`, the calls of the system that each call on
-- the sink makes. The flags of Win32 are names, a set of them the list of what is combined; a call
-- that the system rejects is only logged.
pub mod Keys
pub mod Wheel
use kmwarp.Base.{
  ℕ, ℤ, pos, negsuc, Bool, true, false, Option, none, some, List, [], ◌∷◌, ◌++◌, leb_ℤ, ◌&&◌, not,
  if◌then◌else◌, saturating_mul_i32, i32_as_u32,
}
use kmwarp.Platform.{SinkCall, KeyState, up, down, MouseButton, left, right, middle, x1, x2}
use kmwarp.Hid.{WinScancode}
use kmwarp.Hid.Lookup.{hid_to_windows_scancode}

-- `MOUSEEVENTF_…`
pub data MouseEventFlag : Type 0 where
  move left_down left_up right_down right_up middle_down middle_up : MouseEventFlag
  x_down x_up wheel h_wheel : MouseEventFlag

-- `KEYEVENTF_…`
pub data KeyEventFlag : Type 0 where
  scancode extended_key key_up : KeyEventFlag

-- `MOUSEINPUT`; `time` and `dwExtraInfo` are 0 throughout, and so in `KEYBDINPUT`.
pub record MouseInput : Type 0 where
  pub dx : ℤ
  pub dy : ℤ
  pub mouse_data : ℕ
  pub dw_flags : MouseEventFlag

-- `KEYBDINPUT`; its `wVk` is 0 throughout.
pub record KeybdInput : Type 0 where
  pub w_scan : ℕ
  pub dw_flags : List KeyEventFlag

-- `SendInput` of one `INPUT`, and `SetCursorPos`.
pub data Win32Call : Type 0 where
  mouse_input : MouseInput → Win32Call
  keybd_input : KeybdInput → Win32Call
  set_cursor_pos : ℤ → ℤ → Win32Call

-- `WHEEL_DELTA`
abbrev pub wheel_delta : ℤ
wheel_delta = pos 120

-- `XBUTTON1_FLAG` and `XBUTTON2_FLAG`
abbrev pub xbutton1_flag : ℕ
xbutton1_flag = 1

abbrev pub xbutton2_flag : ℕ
xbutton2_flag = 2

abbrev pub is_key_down : KeyState → Bool
is_key_down down = true
is_key_down up = false

unfoldable pub button_flags : MouseButton → KeyState → MouseEventFlag × ℕ
button_flags left state =
    (if is_key_down state then MouseEventFlag.left_down else MouseEventFlag.left_up, 0)
button_flags right state =
    (if is_key_down state then MouseEventFlag.right_down else MouseEventFlag.right_up, 0)
button_flags middle state =
    (if is_key_down state then MouseEventFlag.middle_down else MouseEventFlag.middle_up, 0)
button_flags x1 state =
    (if is_key_down state then MouseEventFlag.x_down else MouseEventFlag.x_up, xbutton1_flag)
button_flags x2 state =
    (if is_key_down state then MouseEventFlag.x_down else MouseEventFlag.x_up, xbutton2_flag)

unfoldable pub inject_mouse_rel : ℤ → ℤ → List Win32Call
inject_mouse_rel dx dy =
    Win32Call.mouse_input
      (record { dx = dx; dy = dy; mouse_data = 0; dw_flags = MouseEventFlag.move })
    ∷ []

unfoldable pub inject_mouse_button : MouseButton → KeyState → List Win32Call
unfolding button_flags
inject_mouse_button btn state =
    let (flag, data_word) = button_flags btn state in
    Win32Call.mouse_input
      (record { dx = pos 0; dy = pos 0; mouse_data = data_word; dw_flags = flag })
    ∷ []

-- `d != 0`
abbrev pub is_nonzero : ℤ → Bool
is_nonzero d = not (leb_ℤ d (pos 0) && leb_ℤ (pos 0) d)

-- One axis of the wheel.
abbrev pub wheel_axis : MouseEventFlag → ℤ → List Win32Call
wheel_axis flag d =
    if is_nonzero d
    then Win32Call.mouse_input (record {
      dx = pos 0;
      dy = pos 0;
      mouse_data = i32_as_u32 (saturating_mul_i32 d wheel_delta);
      dw_flags = flag;
    })
      ∷ []
    else []

unfoldable pub inject_mouse_wheel : ℤ → ℤ → List Win32Call
inject_mouse_wheel dx dy =
    wheel_axis MouseEventFlag.wheel dy ++ wheel_axis MouseEventFlag.h_wheel dx

abbrev pub key_flags : Bool → KeyState → List KeyEventFlag
key_flags extended state =
    (KeyEventFlag.scancode ∷ [])
    ++ (if extended then KeyEventFlag.extended_key ∷ [] else [])
    ++ (if is_key_down state then [] else KeyEventFlag.key_up ∷ [])

-- The `let Some(sc) = … else` and what follows it.
abbrev pub send_scancode : Option WinScancode → KeyState → List Win32Call
send_scancode none state = []
send_scancode (some sc) state =
    Win32Call.keybd_input (record { w_scan = sc.code; dw_flags = key_flags sc.extended state }) ∷ []

unfoldable pub inject_key : ℕ → KeyState → List Win32Call
unfolding hid_to_windows_scancode
inject_key hid state = send_scancode (hid_to_windows_scancode hid) state

-- `InputSink for WinInputSink`
unfoldable pub win_input_sink : SinkCall → List Win32Call
unfolding inject_mouse_rel inject_mouse_button inject_mouse_wheel inject_key
win_input_sink (SinkCall.inject_mouse_rel dx dy) = inject_mouse_rel dx dy
win_input_sink (SinkCall.inject_mouse_button btn state) = inject_mouse_button btn state
win_input_sink (SinkCall.inject_mouse_wheel dx dy) = inject_mouse_wheel dx dy
win_input_sink (SinkCall.inject_key hid state _) = inject_key hid state
win_input_sink (SinkCall.warp_cursor_abs x y) = Win32Call.set_cursor_pos x y ∷ []
win_input_sink SinkCall.hide_cursor = []
win_input_sink SinkCall.show_cursor = []

-- The calls on the system that the calls on a sink make.
abbrev pub win32_calls : List SinkCall → List Win32Call
win32_calls [] = []
win32_calls (call ∷ calls) = win_input_sink call ++ win32_calls calls
