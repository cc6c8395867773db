-- ===== src/Tests/Displays.antt =====
-- Two displays side by side, the brain on both of its transitions.
use kmwarp.Base.{
  ◌≡◌, refl, true, false, List, [], ◌∷◌, ◌++◌, Option, none, some, ℤ, pos, leb_ℤ, ◌-ℤ◌,
  if◌then◌else◌, arith,
}
use kmwarp.Platform.{SourceEvent, SinkCall}
use kmwarp.StuckKeys
use kmwarp.Edge.{State, local_active, remote_active, StateMachine, EdgeConfig, cooldown_elapsed}
use kmwarp.Edge
use kmwarp.Edge.Protocol.{local}
use kmwarp.Modmap
use kmwarp.Wire.{Message}
use kmwarp.Server.{BrainState}
use kmwarp.Server.Brain.{brain_round}
use kmwarp.Server.Brain.Displays.{brain_round_crosses}
use kmwarp.StuckKeys.{drain}
use kmwarp.Server.Brain.{enqueue_ups}
use kmwarp.Wire.{Message}
use kmwarp.Edge.{clamp_to_u16}
use kmwarp.Tests.Sessions.{drained}

-- A display of 1440 columns left of one of 1920.
abbrev right_at : ℤ → ℤ → Option ℤ
right_at x y = if leb_ℤ (pos 1440) x then some (pos 3360) else some (pos 1440)

abbrev two_displays : EdgeConfig
two_displays = record Edge.default { local_screen_w = 3360 }

abbrev brain_in : State → BrainState (List Message)
brain_in state = record {
  sm = record {
    state = state;
    cfg = two_displays;
    last_transition_ms = 0;
    last_cursor = (pos 0, pos 0);
  };
  swallow = false;
  held = StuckKeys.new;
  tx_out = [];
  sink = [];
  status = none;
  home_display_right = pos 1440;
}

brain_round_crosses_example :
    let crossed =
      brain_round drained Modmap.default [] right_at
        (pos 3360)
        (local (SourceEvent.cursor_at (pos 1439) (pos 20)))
        70
        (brain_in local_active) in
    (crossed.sm.state ≡ remote_active)
    × (crossed.swallow ≡ true)
    × (crossed.home_display_right ≡ pos 1440)
    × (crossed.tx_out
        ≡ enqueue_ups drained Modmap.default [] right_at
            (pos 3360)
            (drain StuckKeys.new).0
            (drained.try_send (Message.take_control (clamp_to_u16 (pos 20))) []).1)
    × (crossed.sink
        ≡ [] ++ (SinkCall.warp_cursor_abs (pos 1440 -ℤ pos 5) (pos 20) ∷ SinkCall.hide_cursor ∷ []))
unfolding cooldown_elapsed
brain_round_crosses_example =
    brain_round_crosses drained Modmap.default [] right_at 3360 (brain_in local_active) (pos 1439)
      (pos 20) (pos 1440) 5 70 (omega arith) refl refl (omega arith) refl refl refl refl
