-- ===== src/Tap.antt =====
-- crates/server/src/platform/macos/tap.rs: the callback of the event tap, which turns the events of the
-- operating system into source events and decides which of them the system still sees. Installing the
-- tap, its threads and its run loop are calls of the system.
pub mod EventType
pub mod Event
pub mod Bits
pub mod Modifiers
pub mod Swallow
pub mod Bounds
use Prim.Native.Nat.{bit_xor}
use kmwarp.Base.{
  ℕ, ◌-◌, ◌%◌, ◌^◌, bit_and, bit_or, Bool, true, false, not, ◌&&◌, ◌||◌, List, [], ◌∷◌, ◌++◌,
  Option, none, some, ℤ, pos, negsuc, leb_ℤ, ◌==◌, suc, if◌then◌else◌,
}
use kmwarp.Platform.{KeyState, up, down, MouseButton, left, right, middle, x1, x2, SourceEvent}
use kmwarp.Platform.ModMask
use kmwarp.Platform.ModMask.{ModMask}
use kmwarp.Hid.Lookup.{macos_to_hid}
use kmwarp.Tap.Event.{
  CgEvent, clamp_i64_to_i16, i64_as_u16, is_zero, is_down, other_button, key_event_of,
}

unfoldable pub mod_bit : ℕ → Option ℕ
mod_bit vk =
    if vk == 0x38
    then some 0
    else if vk == 0x3c
    then some 1
    else if vk == 0x3b
    then some 2
    else if vk == 0x3e
    then some 3
    else if vk == 0x3a
    then some 4
    else if vk == 0x3d
    then some 5
    else if vk == 0x37
    then some 6
    else if vk == 0x36
    then some 7
    else if vk == 0x39
    then some 8
    else none

unfoldable pub translate_key : CgEvent → KeyState → Option SourceEvent
translate_key event state =
    if is_down state && not (is_zero event.autorepeat)
    then none
    else key_event_of (macos_to_hid (i64_as_u16 event.keycode)) state event

unfoldable pub is_held_bit : ℕ → ℕ → Bool
is_held_bit held bit_idx = not (bit_and held (2 ^ bit_idx) == 0)

unfoldable pub toggle_bit : ℕ → ℕ → ℕ
toggle_bit held bit_idx = bit_xor held (2 ^ bit_idx)

-- A tracked modifier has changed: its bit says how it was.
abbrev pub toggle_mod : Option ℕ → CgEvent → ℕ → Option SourceEvent × ℕ
toggle_mod none event held = (none, held)
toggle_mod (some bit_idx) event held =
    let state = if is_held_bit held bit_idx then up else down in
    (key_event_of (macos_to_hid (i64_as_u16 event.keycode)) state event, toggle_bit held bit_idx)

unfoldable pub translate_flags_changed : CgEvent → ℕ → Option SourceEvent × ℕ
translate_flags_changed event held = toggle_mod (mod_bit (i64_as_u16 event.keycode)) event held

unfoldable pub is_mouse_motion : ℕ → Bool
is_mouse_motion etype =
    etype == EventType.mouse_moved
    || etype == EventType.left_mouse_dragged
    || etype == EventType.right_mouse_dragged
    || etype == EventType.other_mouse_dragged

unfoldable pub is_swallowable : ℕ → Bool
is_swallowable etype =
    etype == EventType.mouse_moved
    || etype == EventType.left_mouse_dragged
    || etype == EventType.right_mouse_dragged
    || etype == EventType.other_mouse_dragged
    || etype == EventType.left_mouse_down
    || etype == EventType.left_mouse_up
    || etype == EventType.right_mouse_down
    || etype == EventType.right_mouse_up
    || etype == EventType.other_mouse_down
    || etype == EventType.other_mouse_up
    || etype == EventType.scroll_wheel
    || etype == EventType.key_down
    || etype == EventType.key_up
    || etype == EventType.flags_changed

abbrev pub subscribed_types : List ℕ
subscribed_types =
    EventType.mouse_moved ∷ EventType.left_mouse_dragged ∷ EventType.right_mouse_dragged
    ∷ EventType.other_mouse_dragged ∷ EventType.left_mouse_down ∷ EventType.left_mouse_up
    ∷ EventType.right_mouse_down ∷ EventType.right_mouse_up ∷ EventType.other_mouse_down
    ∷ EventType.other_mouse_up ∷ EventType.scroll_wheel ∷ EventType.key_down ∷ EventType.key_up
    ∷ EventType.flags_changed ∷ []

-- The loop over the types: `mask |= 1 << t`.
unfoldable pub or_masks : ℕ → List ℕ → ℕ
or_masks mask [] = mask
or_masks mask (t ∷ ts) = or_masks (bit_or mask (2 ^ t)) ts

unfoldable pub make_event_mask : ℕ
unfolding or_masks
make_event_mask = or_masks 0 subscribed_types

-- Only a change of the flags touches the bitmap.
unfoldable pub translate : ℕ → CgEvent → ℕ → Option SourceEvent × ℕ
unfolding is_mouse_motion
translate etype event held =
    if is_mouse_motion etype
    then (
      some
          (SourceEvent.mouse_rel (clamp_i64_to_i16 event.delta_x) (clamp_i64_to_i16 event.delta_y)),
      held,
    )
    else if etype == EventType.left_mouse_down
    then (some (SourceEvent.mouse_button left down), held)
    else if etype == EventType.left_mouse_up
    then (some (SourceEvent.mouse_button left up), held)
    else if etype == EventType.right_mouse_down
    then (some (SourceEvent.mouse_button right down), held)
    else if etype == EventType.right_mouse_up
    then (some (SourceEvent.mouse_button right up), held)
    else if etype == EventType.other_mouse_down
    then (some (SourceEvent.mouse_button (other_button event) down), held)
    else if etype == EventType.other_mouse_up
    then (some (SourceEvent.mouse_button (other_button event) up), held)
    else if etype == EventType.scroll_wheel
    then (
      some (
          SourceEvent.mouse_wheel (clamp_i64_to_i16 event.wheel_axis_2)
            (clamp_i64_to_i16 event.wheel_axis_1)),
      held,
    )
    else if etype == EventType.key_down
    then (translate_key event down, held)
    else if etype == EventType.key_up
    then (translate_key event up, held)
    else if etype == EventType.flags_changed
    then translate_flags_changed event held
    else (none, held)

-- The channel is unbounded, so that a send only fails when nobody receives any more.
pub record TapState : Type 0 where
  pub sent : List SourceEvent
  pub swallow : Bool
  pub port_published : Bool
  pub held_mods : ℕ
  pub reenabled : ℕ

abbrev pub optional : Option SourceEvent → List SourceEvent
optional none = []
optional (some e) = e ∷ []

-- What the callback sends for an event: its translation, and the cursor where it was moved.
abbrev pub reports : ℕ → CgEvent → ℕ → List SourceEvent
reports etype event held =
    optional (translate etype event held).0
    ++ (if is_mouse_motion etype
        then SourceEvent.cursor_at event.location_x event.location_y ∷ []
        else [])

abbrev pub deliver : ℕ → CgEvent → TapState → TapState × Option CgEvent
deliver etype event state = (
  record state {
    sent = state.sent ++ reports etype event state.held_mods;
    held_mods = (translate etype event state.held_mods).1;
  },
  if state.swallow && is_swallowable etype then none else some event,
)

abbrev pub reenable : TapState → TapState
reenable state =
    if state.port_published then record state { reenabled = suc state.reenabled } else state

abbrev pub is_disabled : ℕ → Bool
is_disabled etype =
    etype == EventType.tap_disabled_by_timeout || etype == EventType.tap_disabled_by_user_input

abbrev pub on_event : ℕ → Option CgEvent → TapState → TapState × Option CgEvent
on_event etype none state = (state, none)
on_event etype (some event) state = deliver etype event state

-- The state behind `user_info`, which is never null, and the event that the system still sees; a null
-- event stays null.
unfoldable pub cb_thunk : ℕ → Option CgEvent → TapState → TapState × Option CgEvent
cb_thunk etype event state =
    if is_disabled etype then (reenable state, event) else on_event etype event state

-- One call of the callback: the event, and the swallow flag as it stands then.
pub record Callback : Type 0 where
  pub etype : ℕ
  pub event : Option CgEvent
  pub swallowing : Bool

-- The callbacks of a session, in order.
unfoldable pub tap_run : List Callback → TapState → TapState
tap_run [] state = state
tap_run (c ∷ cs) state =
    tap_run cs (cb_thunk c.etype c.event (record state { swallow = c.swallowing })).0
