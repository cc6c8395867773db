-- ===== src/Tap/Event.antt =====
-- crates/server/src/platform/macos/tap.rs: what is read of an event of the operating system.
use kmwarp.Base.{
  ℕ, ◌-◌, ◌%◌, Bool, true, false, Option, none, some, ℤ, pos, negsuc, leb_ℤ, ◌==◌, if◌then◌else◌,
}
use kmwarp.Platform.{KeyState, up, down, MouseButton, left, right, middle, x1, x2, SourceEvent}
use kmwarp.Platform.ModMask
use kmwarp.Platform.ModMask.{ModMask}

-- What the accessors read of an event: its integer fields, whether its flags contain each of the four
-- modifiers that are looked at, and its location, cast to `i32`.
pub record CgEvent : Type 0 where
  pub delta_x : ℤ
  pub delta_y : ℤ
  pub wheel_axis_1 : ℤ
  pub wheel_axis_2 : ℤ
  pub autorepeat : ℤ
  pub keycode : ℤ
  pub button_number : ℤ
  pub flag_shift : Bool
  pub flag_control : Bool
  pub flag_alternate : Bool
  pub flag_command : Bool
  pub location_x : ℤ
  pub location_y : ℤ

abbrev pub i16_min : ℤ
i16_min = negsuc 32767

abbrev pub i16_max : ℤ
i16_max = pos 32767

unfoldable pub clamp_i64_to_i16 : ℤ → ℤ
clamp_i64_to_i16 v = if leb_ℤ i16_max v then i16_max else if leb_ℤ v i16_min then i16_min else v

-- `as u16` at an `i64`: two's complement.
unfoldable pub i64_as_u16 : ℤ → ℕ
i64_as_u16 (pos n) = n % 65536
i64_as_u16 (negsuc n) = 65535 - n % 65536

abbrev pub is_zero : ℤ → Bool
is_zero (pos n) = n == 0
is_zero (negsuc n) = false

abbrev pub is_down : KeyState → Bool
is_down down = true
is_down up = false

abbrev pub button_of_number : ℤ → MouseButton
button_of_number (negsuc n) = x2
button_of_number (pos n) =
    if n == 0
    then left
    else if n == 1
    then right
    else if n == 2
    then middle
    else if n == 3
    then x1
    else x2

unfoldable pub other_button : CgEvent → MouseButton
other_button event = button_of_number event.button_number

abbrev pub insert_if : Bool → ModMask → ModMask → ModMask
insert_if true bit m = ModMask.insert m bit
insert_if false bit m = m

unfoldable pub mods_from_flags : CgEvent → ModMask
unfolding ModMask.insert
mods_from_flags event = insert_if event.flag_command ModMask.meta (
    insert_if event.flag_alternate ModMask.alt (
      insert_if event.flag_control ModMask.ctrl
        (insert_if event.flag_shift ModMask.shift ModMask.empty)))

-- The key event of a key that the table knows, with the modifiers of the flags.
abbrev pub key_event_of : Option ℕ → KeyState → CgEvent → Option SourceEvent
key_event_of (some hid) state event = some (SourceEvent.key hid state (mods_from_flags event))
key_event_of none state event = none
