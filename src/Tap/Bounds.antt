-- ===== src/Tap/Bounds.antt =====
-- Every event of the tap has a frame: what the callback sends on can be encoded.
use kmwarp.Base.{
  ℕ, ℤ, ◌<◌, ◌≡◌, refl, Bool, true, false, not, ◌&&◌, List, [], ◌∷◌, Option, none, some, ◌==◌,
  if◌then◌else◌, arith, IsI16, ltb,
}
use mathlib.Core.Path.{subst}
use kmwarp.Platform.{SourceEvent, KeyState, up, down, MouseButton, left, right}
use kmwarp.Platform.ModMask.{to_wire}
use kmwarp.Wire.{Message}
use kmwarp.Wire.Connection.Delivery.{IsSendable}
use kmwarp.Wire.Convert.{source_event_to_message, key_state_to_byte, mouse_button_to_byte}
use kmwarp.Hid.{find_value}
use kmwarp.Hid.Tables.{macos_vk_to_hid}
use kmwarp.Hid.Lookup.{macos_to_hid}
use kmwarp.Tap.EventType
use kmwarp.Tap.Event.{
  CgEvent, clamp_i64_to_i16, key_event_of, mods_from_flags, i64_as_u16, is_zero, is_down,
  other_button,
}
use kmwarp.Tap.{
  translate, is_mouse_motion, translate_key, translate_flags_changed, toggle_mod, mod_bit,
}

clamp_i64_to_i16-IsI16 : (v : ℤ) → IsI16 (clamp_i64_to_i16 v)
unfolding clamp_i64_to_i16
clamp_i64_to_i16-IsI16 v = ground arith

-- The event can be sent, or is none that goes on the wire.
abbrev HasFrame : Option Message → Type 0
HasFrame none = Unit {0}
HasFrame (some m) = IsSendable m

abbrev Sound : Option SourceEvent → Type 0
Sound none = Unit {0}
Sound (some e) = HasFrame (source_event_to_message e)

all_small : List (ℕ × ℕ) → Bool
all_small [] = true
all_small ((k, v) ∷ rest) = ltb v 65536 && all_small rest

find_value-lt :
    (t : List (ℕ × ℕ)) (k v : ℕ) → all_small t ≡ true → find_value t k ≡ some v → v < 65536
unfolding find_value all_small
find_value-lt [] k v a h = ground arith
find_value-lt ((x, y) ∷ rest) k v a h = let ih = find_value-lt rest k v in ground (arith, ih)

macos_to_hid-lt : (k : ℕ) {v : ℕ} → macos_to_hid k ≡ some v → v < 65536
unfolding macos_to_hid all_small
macos_to_hid-lt k {v} h = find_value-lt macos_vk_to_hid k v refl h

mods_from_flags-lt : (event : CgEvent) → to_wire (mods_from_flags event) < 256
unfolding mods_from_flags to_wire
mods_from_flags-lt event = ground arith

key_state_to_byte-lt : (s : KeyState) → key_state_to_byte s < 256
unfolding key_state_to_byte
key_state_to_byte-lt s = ground arith

mouse_button_to_byte-lt : (b : MouseButton) → mouse_button_to_byte b < 256
unfolding mouse_button_to_byte
mouse_button_to_byte-lt b = ground arith

key_event_of-Sound :
    (vk : ℕ) (state : KeyState) (event : CgEvent)
    → Sound (key_event_of (macos_to_hid vk) state event)
unfolding source_event_to_message
key_event_of-Sound vk state event = go (macos_to_hid vk) refl
  where
    go : (o : Option ℕ) → macos_to_hid vk ≡ o → Sound (key_event_of o state event)
    go none e = tt
    go (some hid) e =
        ((macos_to_hid-lt vk e, key_state_to_byte-lt state, mods_from_flags-lt event), omega arith)

-- What a translation returns is sound.
record IsSound (out : Option SourceEvent × ℕ) : Type 0 where
  sound : Sound out.0

if-IsSound :
    (b : Bool) (p q : Option SourceEvent × ℕ) → IsSound p → IsSound q → IsSound (if b then p else q)
if-IsSound true p q h k = h
if-IsSound false p q h k = k

translate_key-Sound : (event : CgEvent) (state : KeyState) → Sound (translate_key event state)
unfolding translate_key
translate_key-Sound event state =
    elim (is_down state && not (is_zero event.autorepeat))
      as (λ b.
        Sound (
          if b then none else key_event_of (macos_to_hid (i64_as_u16 event.keycode)) state event)) [
            | true ↦ tt
            | false ↦ key_event_of-Sound (i64_as_u16 event.keycode) state event
          ]

toggle_mod-IsSound : (o : Option ℕ) (event : CgEvent) (held : ℕ) → IsSound (toggle_mod o event held)
toggle_mod-IsSound none event held = record { sound = tt }
toggle_mod-IsSound (some k) event held = record {
  sound = key_event_of-Sound (i64_as_u16 event.keycode) _ event;
}

mouse_button-IsSound :
    (b : MouseButton) (s : KeyState) (held : ℕ)
    → IsSound (some (SourceEvent.mouse_button b s), held)
unfolding source_event_to_message
mouse_button-IsSound b s held = record {
  sound = ((mouse_button_to_byte-lt b, key_state_to_byte-lt s), omega arith);
}

mouse_rel-IsSound :
    (x y : ℤ) (held : ℕ)
    → IsSound (some (SourceEvent.mouse_rel (clamp_i64_to_i16 x) (clamp_i64_to_i16 y)), held)
unfolding source_event_to_message
mouse_rel-IsSound x y held = record {
  sound = ((clamp_i64_to_i16-IsI16 x, clamp_i64_to_i16-IsI16 y), omega arith);
}

mouse_wheel-IsSound :
    (x y : ℤ) (held : ℕ)
    → IsSound (some (SourceEvent.mouse_wheel (clamp_i64_to_i16 x) (clamp_i64_to_i16 y)), held)
unfolding source_event_to_message
mouse_wheel-IsSound x y held = record {
  sound = ((clamp_i64_to_i16-IsI16 x, clamp_i64_to_i16-IsI16 y), omega arith);
}

translate_key-IsSound :
    (event : CgEvent) (state : KeyState) (held : ℕ) → IsSound (translate_key event state, held)
translate_key-IsSound event state held = record { sound = translate_key-Sound event state }

translate_flags_changed-IsSound :
    (event : CgEvent) (held : ℕ) → IsSound (translate_flags_changed event held)
unfolding translate_flags_changed
translate_flags_changed-IsSound event held =
    toggle_mod-IsSound (mod_bit (i64_as_u16 event.keycode)) event held

translate-IsSound : (etype : ℕ) (event : CgEvent) (held : ℕ) → IsSound (translate etype event held)
unfolding translate
translate-IsSound etype event held =
    let branch = mouse_button-IsSound in
    if-IsSound (is_mouse_motion etype) _ _ (mouse_rel-IsSound event.delta_x event.delta_y held) (
      if-IsSound (etype == EventType.left_mouse_down) _ _ (branch left down held) (
        if-IsSound (etype == EventType.left_mouse_up) _ _ (branch left up held) (
          if-IsSound (etype == EventType.right_mouse_down) _ _ (branch right down held) (
            if-IsSound (etype == EventType.right_mouse_up) _ _ (branch right up held) (
              if-IsSound (etype == EventType.other_mouse_down) _ _
                (branch (other_button event) down held)
                (if-IsSound (etype == EventType.other_mouse_up) _ _
                  (branch (other_button event) up held)
                  (if-IsSound (etype == EventType.scroll_wheel) _ _
                    (mouse_wheel-IsSound event.wheel_axis_2 event.wheel_axis_1 held)
                    (if-IsSound (etype == EventType.key_down) _ _
                      (translate_key-IsSound event down held)
                      (if-IsSound (etype == EventType.key_up) _ _
                        (translate_key-IsSound event up held)
                        (if-IsSound (etype == EventType.flags_changed) _ _
                          (translate_flags_changed-IsSound event held)
                          (record { sound = tt })))))))))))

-- Whatever the operating system reports, deltas and key codes out of every range included, the message
-- of an event that the tap translates is typed and fits a frame.
pub translate-IsSendable :
    (etype : ℕ) (event : CgEvent) (held : ℕ) {e : SourceEvent} {m : Message}
    → (translate etype event held).0 ≡ some e
    → source_event_to_message e ≡ some m
    → IsSendable m
translate-IsSendable etype event held p q =
    subst HasFrame q (subst Sound p (translate-IsSound etype event held).sound)
