-- ===== src/Server/Brain.antt =====
-- crates/server/src/app.rs: `edge_brain_task`, `execute_action`, and what they call.
pub mod Keys
pub mod Release
pub mod Displays
use kmwarp.Base.{
  ℕ, Bool, true, false, Option, none, some, List, [], ◌∷◌, ◌++◌, ◌==◌, if◌then◌else◌, ℤ, pos, leb_ℤ,
  ◌-ℤ◌,
}
use kmwarp.Platform.{SinkCall, SourceEvent}
use kmwarp.Platform.ModMask.{from_wire, to_wire}
use kmwarp.StuckKeys.{HeldKeys, insert, remove, drain}
use kmwarp.Modmap.{ModRemap, apply_to_hid, apply_to_modmask}
use kmwarp.Wire.{Message}
use kmwarp.Edge.{
  Action, StateMachine, send_take_control, send_release_control, warp_local_cursor,
  hide_local_cursor, show_local_cursor, start_swallow, stop_swallow, send_message,
}
use kmwarp.Edge.Protocol.{Input, local, wire, step}
use kmwarp.Channel.{Sender}
use kmwarp.Server.{BrainState, ServerStatus, publish_status}

unfoldable pub remap_key_message : Message → ModRemap → Message
remap_key_message (Message.key_event hid_usage state modifiers) remap =
    Message.key_event (apply_to_hid remap hid_usage) state
      (to_wire (apply_to_modmask remap (from_wire modifiers)))
remap_key_message other remap = other

-- The tracking of `Action::SendMessage`, after the remap.
unfoldable pub track_held : Message → HeldKeys → HeldKeys
track_held (Message.key_event hid_usage state _) held =
    if state == 1 then insert held hid_usage else if state == 0 then remove held hid_usage else held
track_held _ held = held

-- The outbound channel; the modifier mapping; the peer; the right edge of the display that holds a
-- point (`display_containing` and `right`, over the geometry that the system reports); the width of
-- the arrangement.
module _ {Q : Type 0} (tx : Sender Q) (mod_remap : ModRemap) (remote : List ℕ)
    (display_right_at : ℤ → ℤ → Option ℤ) (global_right : ℤ) where
  -- A message that the channel does not take is dropped.
  abbrev pub enqueue : Message → Q → Q
  enqueue msg q = (tx.try_send msg q).1

  unfoldable pub enqueue_ups : List ℕ → Q → Q
  enqueue_ups [] q = q
  enqueue_ups (hid ∷ hids) q = enqueue_ups hids (enqueue (Message.key_event hid 0 0) q)

  unfoldable pub drain_held_to_peer : BrainState Q → BrainState Q
  unfolding drain enqueue_ups
  drain_held_to_peer b = record b {
    held = (drain b.held).1;
    tx_out = enqueue_ups (drain b.held).0 b.tx_out;
  }

  unfoldable pub execute_action : Action → BrainState Q → BrainState Q
  unfolding drain_held_to_peer remap_key_message track_held
  execute_action (send_take_control entry_y) b = record b {
    tx_out = enqueue (Message.take_control entry_y) b.tx_out;
  }
  execute_action (send_release_control exit_y) b = record b {
    tx_out = enqueue (Message.release_control exit_y) b.tx_out;
  }
  execute_action (send_message msg) b =
      let remapped = remap_key_message msg mod_remap in
      record b { held = track_held remapped b.held; tx_out = enqueue remapped b.tx_out }
  execute_action (warp_local_cursor x y) b = record b {
    sink = b.sink ++ (SinkCall.warp_cursor_abs x y ∷ []);
  }
  execute_action hide_local_cursor b = record b { sink = b.sink ++ (SinkCall.hide_cursor ∷ []) }
  execute_action show_local_cursor b = record b { sink = b.sink ++ (SinkCall.show_cursor ∷ []) }
  execute_action start_swallow b = record (drain_held_to_peer b) {
    swallow = true;
    status = publish_status b.status (ServerStatus.active remote);
  }
  execute_action stop_swallow b = record (drain_held_to_peer b) {
    swallow = false;
    status = publish_status b.status (ServerStatus.connected remote);
  }

  -- The cursor at the right edge of its display is at the global right edge for the machine, the
  -- cursor elsewhere on a display at 0; the edge it leaves by is kept.
  abbrev pub at_display : Option ℤ → ℤ → ℤ → ℤ → Input × ℤ
  at_display (some d_right) x y home =
      if leb_ℤ (d_right -ℤ pos 1) x
      then (local (SourceEvent.cursor_at global_right y), d_right)
      else (local (SourceEvent.cursor_at (pos 0) y), home)
  at_display none x y home = (local (SourceEvent.cursor_at x y), home)

  unfoldable pub rewrite_input : Input → ℤ → Input × ℤ
  rewrite_input (local (SourceEvent.cursor_at x y)) home =
      at_display (display_right_at x y) x y home
  rewrite_input other home = (other, home)

  unfoldable pub rewrite_action : Action → ℤ → Action
  rewrite_action (warp_local_cursor x y) home = warp_local_cursor (home -ℤ (global_right -ℤ x)) y
  rewrite_action other home = other

  unfoldable pub execute_all : List Action → BrainState Q → BrainState Q
  unfolding execute_action rewrite_action
  execute_all [] b = b
  execute_all (action ∷ actions) b =
      execute_all actions (execute_action (rewrite_action action b.home_display_right) b)

  -- One round of the loop of `edge_brain_task`, `now_ms` being the time of its start.
  unfoldable pub brain_round : Input → ℕ → BrainState Q → BrainState Q
  unfolding rewrite_input execute_all
  brain_round input now_ms b =
      let rewritten = rewrite_input input b.home_display_right in
      let moved = step b.sm rewritten.0 now_ms in
      execute_all moved.1 (record b { sm = moved.0; home_display_right = rewritten.1 })

  unfoldable pub edge_brain_task : List (Input × ℕ) → BrainState Q → BrainState Q
  unfolding brain_round
  edge_brain_task [] b = b
  edge_brain_task ((input, now_ms) ∷ inputs) b = edge_brain_task inputs (brain_round input now_ms b)
