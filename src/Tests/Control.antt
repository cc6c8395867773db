-- ===== src/Tests/Control.antt =====
-- The edge machine, the key tracker, the modifier mapping and the wire conversions at concrete inputs.
use kmwarp.Base.{ℕ, ◌≡◌, ◌≢◌, false, List, [], ◌∷◌, ◌++◌, some, pos, arith}
use kmwarp.Platform.{KeyState, up, down, SourceEvent, left}
use kmwarp.Platform.ModMask.{contains}
use kmwarp.Wire.{Message}
use kmwarp.Wire.Convert.{source_event_to_message_remapped}
use kmwarp.Wire.Convert.Roundtrip.{inject, call_of, inject-source_event_to_message_remapped}
use kmwarp.Edge
use kmwarp.Edge.{StateMachine, EdgeConfig, State, remote_active}
use kmwarp.Edge.Protocol.{Input, local, wire, run, perform_all, desk, is_remote, perform_all-run}
use kmwarp.Modmap
use kmwarp.Modmap.{ModRemap, apply_to_hid, apply_to_modmask}
use kmwarp.Modmap.Chords
use kmwarp.Modmap.Chords.{usage, target, bit, is_asked_for, contains-apply_to_modmask}

-- Over the right edge, a key press there, and back.
abbrev visit : List (Input × ℕ)
visit =
    (local (SourceEvent.cursor_at (pos 1920) (pos 300)), 100)
    ∷ (local (SourceEvent.key 4 down (record { bits = 0 })), 120)
    ∷ (wire (Message.release_control 310), 200)
    ∷ []

perform_all-run_example :
    let (sm, actions) = run (Edge.new Edge.default) visit in
    perform_all actions (desk false) ≡ some (desk (is_remote sm.state))
perform_all-run_example = perform_all-run Edge.default visit

abbrev typed : List (ℕ × KeyState)
typed = (225, down) ∷ (4, down) ∷ (4, up) ∷ []

no_option_key : (s : Chords.Side) → 4 ≢ usage s Chords.alt
no_option_key Chords.left h = omega arith
no_option_key Chords.right h = omega arith

no_cmd_key : (s : Chords.Side) → 4 ≢ usage s Chords.meta
no_cmd_key Chords.left h = omega arith
no_cmd_key Chords.right h = omega arith

contains-apply_to_modmask_example :
    contains (apply_to_modmask Modmap.default (record { bits = 8 })) (bit Chords.ctrl)
    ≡ is_asked_for Modmap.default (record { bits = 8 }) Chords.ctrl
contains-apply_to_modmask_example =
    contains-apply_to_modmask Modmap.default (record { bits = 8 }) Chords.ctrl

inject-source_event_to_message_remapped_example :
    inject (source_event_to_message_remapped (SourceEvent.mouse_button left down) Modmap.default) []
    ≡ [] ++ call_of Modmap.default (SourceEvent.mouse_button left down)
inject-source_event_to_message_remapped_example =
    inject-source_event_to_message_remapped Modmap.default (SourceEvent.mouse_button left down) []
