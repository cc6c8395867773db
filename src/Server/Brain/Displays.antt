-- ===== src/Server/Brain/Displays.antt =====
-- The cursor comes back to the display that it left from.
use kmwarp.Base.{
  ℕ, ◌≤◌, ◌<◌, ◌≡◌, refl, ap, ◌∙◌, true, false, Option, some, List, [], ◌∷◌, ◌++◌, append_assoc,
  arith, ℤ, pos, ◌-ℤ◌, leb_ℤ, u32_as_i32, saturating_sub_i32,
}
use kmwarp.Platform.{SourceEvent, SinkCall}
use kmwarp.StuckKeys.{drain}
use kmwarp.Modmap.{ModRemap}
use kmwarp.Wire.{Message}
use kmwarp.Edge.{
  Action, local_active, remote_active, StateMachine, on_local_event, on_wire_message,
  cooldown_elapsed, clamp_to_u16, send_take_control, warp_local_cursor, hide_local_cursor,
  show_local_cursor, start_swallow, stop_swallow,
}
use kmwarp.Edge.Protocol.{Input, local, wire, step}
use kmwarp.Channel.{Sender}
use kmwarp.Server.{BrainState}
use kmwarp.Server.Brain.{
  enqueue_ups, drain_held_to_peer, execute_action, rewrite_action, rewrite_input, execute_all,
  brain_round, at_display,
}

step_crosses :
    (sm : StateMachine) (x y : ℤ) (now : ℕ)
    → sm.state ≡ local_active
    → cooldown_elapsed sm now ≡ true
    → leb_ℤ (u32_as_i32 sm.cfg.local_screen_w) x ≡ true
    → step sm (local (SourceEvent.cursor_at x y)) now ≡ (
      record sm { last_cursor = (x, y); state = remote_active; last_transition_ms = now },
      send_take_control (clamp_to_u16 y)
          ∷ warp_local_cursor
              (saturating_sub_i32 (u32_as_i32 sm.cfg.local_screen_w) sm.cfg.back_warp_px)
              y
          ∷ hide_local_cursor
          ∷ start_swallow
          ∷ [],
    )
unfolding step on_local_event cooldown_elapsed
step_crosses sm x y now s c h = ground arith

step_releases :
    (sm : StateMachine) (exit_y now : ℕ)
    → sm.state ≡ remote_active
    → step sm (wire (Message.release_control exit_y)) now ≡ (
      record sm { state = local_active; last_transition_ms = now },
      stop_swallow
          ∷ show_local_cursor
          ∷ warp_local_cursor
              (saturating_sub_i32 (u32_as_i32 sm.cfg.local_screen_w) (pos 1))
              (pos exit_y)
          ∷ [],
    )
unfolding step on_wire_message
step_releases sm exit_y now s = ground arith

-- The offset of a warp from the right edge of the arrangement.
edge_offset :
    (w p : ℕ) → w ≤ 65535 → p ≤ w → pos w -ℤ saturating_sub_i32 (u32_as_i32 w) (pos p) ≡ pos p
edge_offset w p h k = ground arith

module _ {Q : Type 0} (tx : Sender Q) (mod_remap : ModRemap) (remote : List ℕ)
    (display_right_at : ℤ → ℤ → Option ℤ) (w : ℕ) where
  round_of :
      (i : Input) (now : ℕ) (b : BrainState Q) (r : Input × ℤ) (moved : StateMachine × List Action)
      → rewrite_input tx mod_remap remote display_right_at (pos w) i b.home_display_right ≡ r
      → step b.sm r.0 now ≡ moved
      → brain_round tx mod_remap remote display_right_at (pos w) i now b
        ≡ execute_all tx mod_remap remote display_right_at
            (pos w)
            moved.1
            (record b { sm = moved.0; home_display_right = r.1 })
  unfolding brain_round
  round_of i now b r moved hr hs =
      ap
        (λ r'.
          let m = step b.sm r'.0 now in
          execute_all tx mod_remap remote display_right_at (pos w) m.1
            (record b { sm = m.0; home_display_right = r'.1 }))
        hr
      ∙ ap
          (λ m.
            execute_all tx mod_remap remote display_right_at (pos w) m.1
              (record b { sm = m.0; home_display_right = r.1 }))
          hs

  at_edge :
      (x y d home : ℤ)
      → display_right_at x y ≡ some d
      → leb_ℤ (d -ℤ pos 1) x ≡ true
      → rewrite_input tx mod_remap remote display_right_at
          (pos w)
          (local (SourceEvent.cursor_at x y))
          home
        ≡ (local (SourceEvent.cursor_at (pos w) y), d)
  unfolding rewrite_input
  at_edge x y d home h e = rw (h, at_display, e)

  -- On an arrangement of at most 65535 columns, with a back-warp of at most as many, in `LocalActive`
  -- outside the cooldown: a cursor in the
  -- last column of its display, wherever that stands in the arrangement, takes control; the local
  -- cursor is put back by the back-warp from the right edge of that display and hidden, and the edge is
  -- kept. The outbound channel is offered the TakeControl with the row of the cursor, and then a release
  -- of each key that was still held.
  pub brain_round_crosses :
      (b : BrainState Q) (x y d : ℤ) (p now : ℕ)
      → w ≤ 65535
      → b.sm.cfg.local_screen_w ≡ w
      → b.sm.cfg.back_warp_px ≡ pos p
      → p ≤ w
      → b.sm.state ≡ local_active
      → cooldown_elapsed b.sm now ≡ true
      → display_right_at x y ≡ some d
      → leb_ℤ (d -ℤ pos 1) x ≡ true
      → let crossed =
          brain_round tx mod_remap remote display_right_at
            (pos w)
            (local (SourceEvent.cursor_at x y))
            now
            b in
        (crossed.sm.state ≡ remote_active)
        × (crossed.swallow ≡ true)
        × (crossed.home_display_right ≡ d)
        × (crossed.tx_out
            ≡ enqueue_ups tx mod_remap remote display_right_at
                (pos w)
                (drain b.held).0
                (tx.try_send (Message.take_control (clamp_to_u16 y)) b.tx_out).1)
        × (crossed.sink
            ≡ b.sink ++ (SinkCall.warp_cursor_abs (d -ℤ pos p) y ∷ SinkCall.hide_cursor ∷ []))
  unfolding execute_all execute_action rewrite_action drain_held_to_peer
  brain_round_crosses b x y d p now small width back fits home cool there edge =
      let at_right : leb_ℤ (u32_as_i32 b.sm.cfg.local_screen_w) (pos w) ≡ true = ground arith in
      let round =
        round_of (local (SourceEvent.cursor_at x y)) now b _ _
          (at_edge x y d b.home_display_right there edge)
          (step_crosses b.sm (pos w) y now home cool at_right) in
      let offset =
        ap (λ v. pos w -ℤ saturating_sub_i32 (u32_as_i32 v) b.sm.cfg.back_warp_px) width
        ∙ ap (λ v. pos w -ℤ saturating_sub_i32 (u32_as_i32 w) v) back
        ∙ edge_offset w p small fits in
      rw round (
        refl,
        refl,
        refl,
        refl,
        append_assoc b.sink (SinkCall.warp_cursor_abs _ y ∷ []) (SinkCall.hide_cursor ∷ [])
            ∙ ap (λ o. b.sink ++ (SinkCall.warp_cursor_abs (d -ℤ o) y ∷ SinkCall.hide_cursor ∷ []))
                offset,
      )

  -- On an arrangement of at least one and at most 65535 columns, in `RemoteActive`: a ReleaseControl
  -- shows the local cursor again in the last column of the display that it left from, at the row that
  -- the peer gives, and local input is no longer swallowed.
  brain_round_releases :
      (b : BrainState Q) (exit_y now : ℕ)
      → 0 < w
      → w ≤ 65535
      → b.sm.cfg.local_screen_w ≡ w
      → b.sm.state ≡ remote_active
      → let released =
          brain_round tx mod_remap remote display_right_at
            (pos w)
            (wire (Message.release_control exit_y))
            now
            b in
        (released.sm.state ≡ local_active)
        × (released.swallow ≡ false)
        × (released.sink
            ≡ b.sink
              ++ (SinkCall.show_cursor
                  ∷ SinkCall.warp_cursor_abs (b.home_display_right -ℤ pos 1) (pos exit_y)
                  ∷ []))
  unfolding execute_all execute_action rewrite_action drain_held_to_peer rewrite_input
  brain_round_releases b exit_y now some_col small width away =
      let round =
        round_of (wire (Message.release_control exit_y)) now b _ _ refl
          (step_releases b.sm exit_y now away) in
      let offset =
        ap (λ v. pos w -ℤ saturating_sub_i32 (u32_as_i32 v) (pos 1)) width
        ∙ edge_offset w 1 small some_col in
      rw round (
        refl,
        refl,
        append_assoc b.sink (SinkCall.show_cursor ∷ [])
              (SinkCall.warp_cursor_abs _ (pos exit_y) ∷ [])
            ∙ ap
                (λ o.
                  b.sink
                  ++ (SinkCall.show_cursor
                      ∷ SinkCall.warp_cursor_abs (b.home_display_right -ℤ o) (pos exit_y)
                      ∷ []))
                offset,
      )
