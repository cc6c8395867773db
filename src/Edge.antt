-- ===== src/Edge.antt =====
-- crates/core/src/edge/mod.rs: the state machine that decides which machine the input drives. The
-- clock is an argument, as in the source; a transition returns the machine and its actions.
pub mod Crossing
pub mod Protocol
use kmwarp.Base.{
  ℕ, ◌+◌, ◌-◌, ◌/◌, Bool, true, false, not, List, [], ◌∷◌, Option, none, some, ℤ, pos, negsuc, leb,
  leb_ℤ, ◌==◌, if◌then◌else◌, min, u32_as_i32, saturating_sub_i32, sub_ℕ,
}
use kmwarp.Platform.{SourceEvent}
use kmwarp.Wire.{Message}
use kmwarp.Wire.Convert.{source_event_to_message}

pub data State : Type 0 where
  local_active remote_active : State

pub record EdgeConfig : Type 0 where
  pub local_screen_w : ℕ
  pub local_screen_h : ℕ
  pub remote_screen_w : ℕ
  pub remote_screen_h : ℕ
  pub thrash_cooldown_ms : ℕ
  pub back_warp_px : ℤ

-- `EdgeConfig::default()`
abbrev pub default : EdgeConfig
default = record {
  local_screen_w = 1920;
  local_screen_h = 1080;
  remote_screen_w = 2560;
  remote_screen_h = 1440;
  thrash_cooldown_ms = 50;
  back_warp_px = pos 5;
}

pub data Action : Type 0 where
  send_take_control : ℕ → Action
  send_release_control : ℕ → Action
  warp_local_cursor : ℤ → ℤ → Action
  hide_local_cursor : Action
  show_local_cursor : Action
  start_swallow : Action
  stop_swallow : Action
  send_message : Message → Action

pub record StateMachine : Type 0 where
  pub state : State
  pub cfg : EdgeConfig
  pub last_transition_ms : ℕ
  pub last_cursor : ℤ × ℤ

-- `v / 2` of an `i32`, which rounds towards 0.
abbrev half_i32 : ℤ → ℤ
half_i32 (pos n) = pos (n / 2)
half_i32 (negsuc n) = sub_ℕ 0 ((n + 1) / 2)

unfoldable pub new : EdgeConfig → StateMachine
new cfg = record {
  state = local_active;
  cfg = cfg;
  last_transition_ms = 0;
  last_cursor =
      (half_i32 (u32_as_i32 cfg.local_screen_w), half_i32 (u32_as_i32 cfg.local_screen_h));
}

unfoldable pub clamp_to_u16 : ℤ → ℕ
clamp_to_u16 (pos n) = min n 65535
clamp_to_u16 (negsuc n) = 0

-- `saturating_sub` of `u64` is the truncated difference.
unfoldable pub cooldown_elapsed : StateMachine → ℕ → Bool
cooldown_elapsed self now_ms =
    if self.last_transition_ms == 0
    then true
    else leb self.cfg.thrash_cooldown_ms (now_ms - self.last_transition_ms)

-- `LocalActive` and `CursorAt`.
unfoldable pub local_cursor_at : StateMachine → ℤ → ℤ → ℕ → StateMachine × List Action
unfolding cooldown_elapsed clamp_to_u16
local_cursor_at self x y now_ms =
    let seen = record self { last_cursor = (x, y) } in
    if not (cooldown_elapsed seen now_ms)
    then (seen, [])
    else if leb_ℤ (u32_as_i32 self.cfg.local_screen_w) x
    then (
      record seen { state = remote_active; last_transition_ms = now_ms },
      send_take_control (clamp_to_u16 y)
          ∷ warp_local_cursor
              (saturating_sub_i32 (u32_as_i32 self.cfg.local_screen_w) self.cfg.back_warp_px) y
          ∷ hide_local_cursor
          ∷ start_swallow
          ∷ [],
    )
    else (seen, [])

abbrev pub forward : Option Message → List Action
forward (some msg) = send_message msg ∷ []
forward none = []

-- The `match (self.state, event)`.
unfoldable pub on_event_in : State → StateMachine → SourceEvent → ℕ → StateMachine × List Action
unfolding local_cursor_at
on_event_in local_active self (SourceEvent.cursor_at x y) now_ms = local_cursor_at self x y now_ms
on_event_in local_active self _ now_ms = (self, [])
on_event_in remote_active self (SourceEvent.cursor_at x y) now_ms =
    (record self { last_cursor = (x, y) }, [])
on_event_in remote_active self ev now_ms = (self, forward (source_event_to_message ev))

unfoldable pub on_local_event : StateMachine → SourceEvent → ℕ → StateMachine × List Action
unfolding on_event_in
on_local_event self event now_ms = on_event_in self.state self event now_ms

abbrev release_in : State → StateMachine → ℕ → ℕ → StateMachine × List Action
release_in local_active self exit_y now_ms = (self, [])
release_in remote_active self exit_y now_ms = (
  record self { state = local_active; last_transition_ms = now_ms },
  stop_swallow
      ∷ show_local_cursor
      ∷ warp_local_cursor (saturating_sub_i32 (u32_as_i32 self.cfg.local_screen_w) (pos 1))
          (pos exit_y)
      ∷ [],
)

unfoldable pub on_wire_message : StateMachine → Message → ℕ → StateMachine × List Action
on_wire_message self (Message.release_control exit_y) now_ms =
    release_in self.state self exit_y now_ms
on_wire_message self _ now_ms = (self, [])
