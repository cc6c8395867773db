-- ===== src/Wire/Convert/Roundtrip.antt =====
-- An event on the server is the same call on the client's sink.
use kmwarp.Base.{ℕ, ◌≡◌, refl, sym, append-nil, Option, none, some, List, [], ◌∷◌, ◌++◌, arith}
use kmwarp.Platform.{KeyState, MouseButton, SourceEvent, SinkCall, left, up, down}
use kmwarp.Modmap.{ModRemap, apply_to_hid, apply_to_modmask}
use kmwarp.Modmap.Chords.{from_wire-apply_to_modmask}
use kmwarp.Wire.{Message}
use kmwarp.Wire.Convert.{
  byte_to_mouse_button, mouse_button_to_byte, byte_to_key_state, key_state_to_byte,
  source_event_to_message_remapped, apply_key_to_sink, apply_mouse_to_sink,
}

pub byte_to_mouse_button-mouse_button_to_byte :
    (b : MouseButton) → byte_to_mouse_button (mouse_button_to_byte b) ≡ some b
unfolding byte_to_mouse_button mouse_button_to_byte
byte_to_mouse_button-mouse_button_to_byte left = refl
byte_to_mouse_button-mouse_button_to_byte _ = refl

pub byte_to_key_state-key_state_to_byte :
    (s : KeyState) → byte_to_key_state (key_state_to_byte s) ≡ some s
unfolding byte_to_key_state key_state_to_byte
byte_to_key_state-key_state_to_byte up = refl
byte_to_key_state-key_state_to_byte down = refl

-- Only the codes of the dictionary are read as buttons.
pub byte_to_mouse_button_inv :
    (n : ℕ) (b : MouseButton) → byte_to_mouse_button n ≡ some b → mouse_button_to_byte b ≡ n
unfolding byte_to_mouse_button mouse_button_to_byte
byte_to_mouse_button_inv n b h = ground arith

-- The call that an event asks for on the other side: the remap applied to keys, nothing for the
-- cursor's position.
abbrev pub call_of : ModRemap → SourceEvent → List SinkCall
call_of r (SourceEvent.mouse_rel dx dy) = SinkCall.inject_mouse_rel dx dy ∷ []
call_of r (SourceEvent.mouse_button b s) = SinkCall.inject_mouse_button b s ∷ []
call_of r (SourceEvent.mouse_wheel dx dy) = SinkCall.inject_mouse_wheel dx dy ∷ []
call_of r (SourceEvent.key h s m) =
    SinkCall.inject_key (apply_to_hid r h) s (apply_to_modmask r m) ∷ []
call_of r (SourceEvent.cursor_at x y) = []

-- What the client does with a message of the mouse or of the keyboard.
abbrev pub inject : Option Message → List SinkCall → List SinkCall
inject none sink = sink
inject (some m) sink = (apply_key_to_sink m (apply_mouse_to_sink m sink).1).1

-- An event of the source, encoded with the modifier mapping and handled by the peer, is the one call
-- on the sink that the event asks for, keys and modifiers mapped; a cursor position is none.
pub inject-source_event_to_message_remapped :
    (r : ModRemap) (ev : SourceEvent) (sink : List SinkCall)
    → inject (source_event_to_message_remapped ev r) sink ≡ sink ++ call_of r ev
unfolding source_event_to_message_remapped apply_key_to_sink apply_mouse_to_sink
inject-source_event_to_message_remapped r (SourceEvent.mouse_rel dx dy) sink = refl
inject-source_event_to_message_remapped r (SourceEvent.mouse_button b s) sink =
    rw (byte_to_mouse_button-mouse_button_to_byte b, byte_to_key_state-key_state_to_byte s)
inject-source_event_to_message_remapped r (SourceEvent.mouse_wheel dx dy) sink = refl
inject-source_event_to_message_remapped r (SourceEvent.key h s m) sink =
    rw (byte_to_key_state-key_state_to_byte s, from_wire-apply_to_modmask r m)
inject-source_event_to_message_remapped r (SourceEvent.cursor_at x y) sink = sym (append-nil sink)
