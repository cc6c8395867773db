-- ===== src/Tests/Tap.antt =====
-- The event tap at concrete inputs.
use kmwarp.Base.{ℕ, ◌≡◌, refl, Bool, true, false, List, [], ◌∷◌, none, some, pos, negsuc, arith}
use kmwarp.Platform.{SourceEvent, up}
use kmwarp.Wire.{Message}
use kmwarp.Wire.Convert.{source_event_to_message}
use kmwarp.Wire.Connection.Delivery.{IsSendable}
use kmwarp.Hid.{find_value}
use kmwarp.Hid.Lookup.{macos_to_hid}
use kmwarp.Tap.EventType
use kmwarp.Tap.Event.{CgEvent, mods_from_flags, i64_as_u16, clamp_i64_to_i16}
use kmwarp.Tap.{
  is_held_bit, make_event_mask, mod_bit, translate, translate_flags_changed, cb_thunk, TapState,
  Callback, tap_run,
}
use kmwarp.Tap.Modifiers.{translate_flags_changed-tap_run}
use kmwarp.Tap.Swallow.{cb_thunk-make_event_mask}
use kmwarp.Tap.Bounds.{translate-IsSendable}

-- An event of the key `vk` far to the right of everything.
abbrev event_of : ℕ → CgEvent
event_of vk = record {
  delta_x = pos 40000;
  delta_y = negsuc 40000;
  wheel_axis_1 = pos 0;
  wheel_axis_2 = pos 0;
  autorepeat = pos 0;
  keycode = pos vk;
  button_number = pos 0;
  flag_shift = true;
  flag_control = false;
  flag_alternate = false;
  flag_command = false;
  location_x = pos 9000;
  location_y = pos 7;
}

abbrev fresh : Bool → TapState
fresh b = record { sent = []; swallow = b; port_published = true; held_mods = 0; reenabled = 0 }

abbrev callback : ℕ → ℕ → Callback
callback etype vk = record { etype = etype; event = some (event_of vk); swallowing = true }

-- Left Shift down, right Shift down, a move, left Shift up, left Shift down.
abbrev session : List Callback
session =
    callback EventType.flags_changed 0x38
    ∷ callback EventType.flags_changed 0x3c
    ∷ callback EventType.mouse_moved 0
    ∷ callback EventType.flags_changed 0x38
    ∷ callback EventType.flags_changed 0x38
    ∷ []

translate_flags_changed-tap_run_example :
    (translate_flags_changed (event_of 0x38) (tap_run session (fresh false)).held_mods).0
    ≡ some (SourceEvent.key 0xe1 up (mods_from_flags (event_of 0x38)))
unfolding mod_bit macos_to_hid find_value i64_as_u16
translate_flags_changed-tap_run_example =
    translate_flags_changed-tap_run 0x38 0 0xe1 session (event_of 0x38) (fresh false) refl refl refl
      refl

cb_thunk-make_event_mask_example :
    (cb_thunk EventType.key_down (some (event_of 4)) (fresh true)).1 ≡ none
unfolding is_held_bit make_event_mask
cb_thunk-make_event_mask_example =
    cb_thunk-make_event_mask EventType.key_down (event_of 4) (fresh true) (omega arith)

translate-IsSendable_example : IsSendable (Message.mouse_move_rel (pos 32767) (negsuc 32767))
unfolding translate source_event_to_message clamp_i64_to_i16
translate-IsSendable_example =
    translate-IsSendable EventType.mouse_moved (event_of 0) 0
      {e = SourceEvent.mouse_rel (pos 32767) (negsuc 32767)} refl refl
