-- ===== src/Inject/Wheel.antt =====
-- The amounts of the wheel that Windows reads, against the clicks that the sink was asked for.
use kmwarp.Base.{
  ℕ, ◌≡◌, refl, sym, ap, ◌∙◌, ℤ, pos, negsuc, IsI16, mul_ℤ, ◌+ℤ◌, u32_as_i32, i32_as_u32,
  saturating_mul_i32, List, [], ◌∷◌, ◌++◌, Bool, true, false, if◌then◌else◌, arith, Bool-cases, inl,
  inr, append_assoc,
}
use kmwarp.Base.{Option-cases}
use kmwarp.Hid.Lookup.{hid_to_windows_scancode}
use kmwarp.Platform.{SinkCall, KeyState, MouseButton}
use kmwarp.Inject.{
  Win32Call, MouseEventFlag, wheel_delta, is_nonzero, wheel_axis, win_input_sink,
  inject_mouse_wheel, win32_calls, inject_mouse_rel, inject_mouse_button, button_flags, inject_key,
  send_scancode,
}

pub data Axis : Type 0 where
  vertical horizontal : Axis

abbrev pub is_flag_of : Axis → MouseEventFlag → Bool
is_flag_of vertical MouseEventFlag.wheel = true
is_flag_of horizontal MouseEventFlag.h_wheel = true
is_flag_of axis flag = false

-- An amount of 16 bits never saturates, and comes back from its unsigned form.
amount_read :
    (d : ℤ)
    → IsI16 d
    → u32_as_i32 (i32_as_u32 (saturating_mul_i32 d wheel_delta)) ≡ mul_ℤ d wheel_delta
amount_read (pos n) (a, b) = ground arith
amount_read (negsuc n) (a, b) = ground arith

add_zero : (x : ℤ) → pos 0 +ℤ x ≡ x
add_zero (pos n) = ground arith
add_zero (negsuc n) = ground arith

mul_add : (x y : ℤ) → mul_ℤ (x +ℤ y) wheel_delta ≡ mul_ℤ x wheel_delta +ℤ mul_ℤ y wheel_delta
mul_add (pos n) (pos m) = ground arith
mul_add (negsuc n) (pos m) = ground arith
mul_add (pos n) (negsuc m) = ground arith
mul_add (negsuc n) (negsuc m) = ground arith

zero_amount : (d : ℤ) → is_nonzero d ≡ false → mul_ℤ d wheel_delta ≡ pos 0
zero_amount (pos n) h = ground arith
zero_amount (negsuc n) h = ground arith

nothing : (b : Bool) → (if b then pos 0 else pos 0) ≡ pos 0
nothing true = refl
nothing false = refl

-- The amount that the system reads on an axis, `mouseData` being signed.
abbrev pub scrolled : Axis → List Win32Call → ℤ
scrolled axis [] = pos 0
scrolled axis (Win32Call.mouse_input mi ∷ calls) =
    (if is_flag_of axis mi.dw_flags then u32_as_i32 mi.mouse_data else pos 0) +ℤ scrolled axis calls
scrolled axis (Win32Call.keybd_input ki ∷ calls) = scrolled axis calls
scrolled axis (Win32Call.set_cursor_pos x y ∷ calls) = scrolled axis calls

abbrev pub along : Axis → ℤ → ℤ → ℤ
along vertical dx dy = dy
along horizontal dx dy = dx

-- The clicks that the sink was asked for on an axis.
abbrev pub clicks : Axis → List SinkCall → ℤ
clicks axis [] = pos 0
clicks axis (SinkCall.inject_mouse_wheel dx dy ∷ calls) = along axis dx dy +ℤ clicks axis calls
clicks axis (_ ∷ calls) = clicks axis calls

-- The clicks of each call are of 16 bits.
abbrev pub HasI16Clicks : List SinkCall → Type 0
HasI16Clicks [] = Unit {0}
HasI16Clicks (SinkCall.inject_mouse_wheel dx dy ∷ calls) = IsI16 dx × IsI16 dy × HasI16Clicks calls
HasI16Clicks (_ ∷ calls) = HasI16Clicks calls

wheel_axis-scrolled :
    (axis : Axis) (flag : MouseEventFlag) (d : ℤ) (rest : List Win32Call)
    → IsI16 d
    → scrolled axis (wheel_axis flag d ++ rest)
      ≡ (if is_flag_of axis flag then mul_ℤ d wheel_delta else pos 0) +ℤ scrolled axis rest
wheel_axis-scrolled axis flag d rest h = elim (Bool-cases (is_nonzero d)) [
  | inl moves ↦ rw (moves, wheel_axis, amount_read d h) refl
  | inr still ↦
      rw (still, wheel_axis, zero_amount d still)
        (sym (add_zero (scrolled axis rest))
          ∙ ap (λ z. z +ℤ scrolled axis rest) (sym (nothing (is_flag_of axis flag))))
]

both_axes :
    (axis : Axis) (dx dy : ℤ) (rest : List Win32Call)
    → IsI16 dx
    → (if is_flag_of axis MouseEventFlag.wheel then mul_ℤ dy wheel_delta else pos 0)
        +ℤ scrolled axis (wheel_axis MouseEventFlag.h_wheel dx ++ rest)
      ≡ mul_ℤ (along axis dx dy) wheel_delta +ℤ scrolled axis rest
both_axes vertical dx dy rest hx =
    ap (λ s. mul_ℤ dy wheel_delta +ℤ s)
      (wheel_axis-scrolled vertical MouseEventFlag.h_wheel dx rest hx
        ∙ add_zero (scrolled vertical rest))
both_axes horizontal dx dy rest hx =
    add_zero _ ∙ wheel_axis-scrolled horizontal MouseEventFlag.h_wheel dx rest hx

wheel-scrolled :
    (axis : Axis) (dx dy : ℤ) (rest : List Win32Call)
    → IsI16 dx
    → IsI16 dy
    → scrolled axis (inject_mouse_wheel dx dy ++ rest)
      ≡ mul_ℤ (along axis dx dy) wheel_delta +ℤ scrolled axis rest
unfolding inject_mouse_wheel
wheel-scrolled axis dx dy rest hx hy =
    ap (scrolled axis) (
      append_assoc (wheel_axis MouseEventFlag.wheel dy) (wheel_axis MouseEventFlag.h_wheel dx) rest)
    ∙ wheel_axis-scrolled axis MouseEventFlag.wheel dy _ hy
    ∙ both_axes axis dx dy rest hx

button_flags_quiet :
    (axis : Axis) (btn : MouseButton) (state : KeyState)
    → is_flag_of axis (button_flags btn state).0 ≡ false
unfolding button_flags
button_flags_quiet axis btn state = ground arith

button-scrolled :
    (axis : Axis) (btn : MouseButton) (state : KeyState) (rest : List Win32Call)
    → scrolled axis (inject_mouse_button btn state ++ rest) ≡ scrolled axis rest
unfolding inject_mouse_button
button-scrolled axis btn state rest =
    rw (button_flags_quiet axis btn state) (add_zero (scrolled axis rest))

inject_key-scrolled :
    (axis : Axis) (hid : ℕ) (state : KeyState) (rest : List Win32Call)
    → scrolled axis (inject_key hid state ++ rest) ≡ scrolled axis rest
unfolding inject_key
inject_key-scrolled axis hid state rest = elim (Option-cases (hid_to_windows_scancode hid)) [
  | inl missing ↦ rw (missing, send_scancode) refl
  | inr (t, found) ↦ rw (found, send_scancode) refl
]

-- Over calls on the sink whose clicks are of 16 bits: what Windows reads on an axis of the wheel
-- amounts to 120 times the clicks on that axis, no other call scrolling.
pub win32_calls-scrolled :
    (axis : Axis) (calls : List SinkCall)
    → HasI16Clicks calls
    → scrolled axis (win32_calls calls) ≡ mul_ℤ (clicks axis calls) wheel_delta
unfolding win_input_sink inject_mouse_rel inject_mouse_wheel
win32_calls-scrolled axis [] h = refl
win32_calls-scrolled axis (SinkCall.inject_key hid state mods ∷ calls) h =
    inject_key-scrolled axis hid state (win32_calls calls) ∙ win32_calls-scrolled axis calls h
win32_calls-scrolled axis (SinkCall.inject_mouse_button btn state ∷ calls) h =
    button-scrolled axis btn state (win32_calls calls) ∙ win32_calls-scrolled axis calls h
win32_calls-scrolled vertical (SinkCall.inject_mouse_rel dx dy ∷ calls) h =
    add_zero _ ∙ win32_calls-scrolled vertical calls h
win32_calls-scrolled horizontal (SinkCall.inject_mouse_rel dx dy ∷ calls) h =
    add_zero _ ∙ win32_calls-scrolled horizontal calls h
win32_calls-scrolled axis (SinkCall.inject_mouse_wheel dx dy ∷ calls) (hx, hy, h) =
    wheel-scrolled axis dx dy (win32_calls calls) hx hy
    ∙ ap (λ s. mul_ℤ (along axis dx dy) wheel_delta +ℤ s) (win32_calls-scrolled axis calls h)
    ∙ sym (mul_add (along axis dx dy) (clicks axis calls))
win32_calls-scrolled axis (SinkCall.warp_cursor_abs x y ∷ calls) h =
    win32_calls-scrolled axis calls h
win32_calls-scrolled axis (SinkCall.hide_cursor ∷ calls) h = win32_calls-scrolled axis calls h
win32_calls-scrolled axis (SinkCall.show_cursor ∷ calls) h = win32_calls-scrolled axis calls h
