-- ===== src/Wire/Convert.antt =====
-- crates/core/src/wire/convert.rs: between platform events, wire messages and sink calls. A sink is
-- the list of the calls made on it, oldest first.
pub mod Roundtrip
use kmwarp.Base.{ℕ, Bool, true, false, Option, none, some, List, [], ◌∷◌, ◌++◌, ◌==◌, if◌then◌else◌}
use kmwarp.Platform.{
  KeyState, MouseButton, SourceEvent, SinkCall, up, down, left, right, middle, x1, x2,
}
use kmwarp.Platform.ModMask.{from_wire, to_wire}
use kmwarp.Modmap.{ModRemap, apply_to_hid, apply_to_modmask}
use kmwarp.Wire.{Message}

-- `mouse_button_code` and `key_state_code` of crates/core/src/wire/mod.rs.
unfoldable pub byte_to_mouse_button : ℕ → Option MouseButton
byte_to_mouse_button b =
    if b == 0
    then some left
    else if b == 1
    then some right
    else if b == 2
    then some middle
    else if b == 3
    then some x1
    else if b == 4
    then some x2
    else none

unfoldable pub mouse_button_to_byte : MouseButton → ℕ
mouse_button_to_byte left = 0
mouse_button_to_byte right = 1
mouse_button_to_byte middle = 2
mouse_button_to_byte x1 = 3
mouse_button_to_byte x2 = 4

unfoldable pub byte_to_key_state : ℕ → Option KeyState
byte_to_key_state b = if b == 0 then some up else if b == 1 then some down else none

unfoldable pub key_state_to_byte : KeyState → ℕ
key_state_to_byte up = 0
key_state_to_byte down = 1

unfoldable pub source_event_to_message : SourceEvent → Option Message
source_event_to_message (SourceEvent.mouse_rel dx dy) = some (Message.mouse_move_rel dx dy)
source_event_to_message (SourceEvent.mouse_button button state) =
    some (Message.mouse_button (mouse_button_to_byte button) (key_state_to_byte state))
source_event_to_message (SourceEvent.mouse_wheel dx dy) = some (Message.mouse_wheel dx dy)
source_event_to_message (SourceEvent.key hid_usage state mods) =
    some (Message.key_event hid_usage (key_state_to_byte state) (to_wire mods))
source_event_to_message (SourceEvent.cursor_at x y) = none

unfoldable pub source_event_to_message_remapped : SourceEvent → ModRemap → Option Message
unfolding source_event_to_message
source_event_to_message_remapped (SourceEvent.key hid_usage state mods) remap = some (
    Message.key_event (apply_to_hid remap hid_usage) (key_state_to_byte state)
      (to_wire (apply_to_modmask remap mods)))
source_event_to_message_remapped other remap = source_event_to_message other

abbrev pub inject_key_if : Option KeyState → ℕ → ℕ → List SinkCall → List SinkCall
inject_key_if (some st) hid mods sink = sink ++ (SinkCall.inject_key hid st (from_wire mods) ∷ [])
inject_key_if none hid mods sink = sink

unfoldable pub apply_key_to_sink : Message → List SinkCall → Bool × List SinkCall
apply_key_to_sink (Message.key_event hid_usage state modifiers) sink =
    (true, inject_key_if (byte_to_key_state state) hid_usage modifiers sink)
apply_key_to_sink _ sink = (false, sink)

abbrev pub inject_button_if : Option MouseButton → Option KeyState → List SinkCall → List SinkCall
inject_button_if (some btn) (some st) sink = sink ++ (SinkCall.inject_mouse_button btn st ∷ [])
inject_button_if _ _ sink = sink

unfoldable pub apply_mouse_to_sink : Message → List SinkCall → Bool × List SinkCall
apply_mouse_to_sink (Message.mouse_move_rel dx dy) sink =
    (true, sink ++ (SinkCall.inject_mouse_rel dx dy ∷ []))
apply_mouse_to_sink (Message.mouse_button button state) sink =
    (true, inject_button_if (byte_to_mouse_button button) (byte_to_key_state state) sink)
apply_mouse_to_sink (Message.mouse_wheel dx dy) sink =
    (true, sink ++ (SinkCall.inject_mouse_wheel dx dy ∷ []))
apply_mouse_to_sink _ sink = (false, sink)
