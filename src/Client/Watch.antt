-- ===== src/Client/Watch.antt =====
-- crates/client/src/platform/windows/cursor_watch.rs: the watcher that hands control back when the
-- cursor reaches the left edge.
pub mod Handback
use kmwarp.Base.{
  ℕ, Bool, true, false, Option, none, some, List, [], ◌∷◌, ◌++◌, ℤ, pos, leb_ℤ, if◌then◌else◌,
}
use kmwarp.Edge.{clamp_to_u16}
use kmwarp.Wire.{Message}
use kmwarp.Channel.{Sender, SendResult, sent, full, closed}
use kmwarp.Client.{Session, ClientStatus, publish}

-- What the watcher has before it at a tick: the session, and the positions that it set the cursor to
-- so far.
pub record Watcher (Q : Type 0) : Type 0 where
  pub session : Session Q
  pub parked : List (ℤ × ℤ)

-- The outbound channel, the column to park the cursor at, and the peer's address.
module _ {Q : Type 0} (tx : Sender Q) (safe_warp_x : ℤ) (peer_addr : List ℕ) where
  -- After the attempt to send the ReleaseControl: `false` where the task returns.
  abbrev pub after_send : SendResult × Q → ℤ → Watcher Q → Watcher Q × Bool
  after_send (closed, q) y w = (record w { session = record w.session { tx_out = q } }, false)
  after_send (_, q) y w = (
    record w {
      session = record w.session {
        tx_out = q;
        active = false;
        status = publish (ClientStatus.connected peer_addr) w.session.status;
      };
      parked = w.parked ++ ((safe_warp_x, y) ∷ []);
    },
    true,
  )

  -- The cursor at `(x, y)`: at the left edge it has left.
  unfoldable pub on_position : ℤ → ℤ → Watcher Q → Watcher Q × Bool
  unfolding clamp_to_u16
  on_position x y w =
      if leb_ℤ x (pos 0)
      then after_send (tx.try_send (Message.release_control (clamp_to_u16 y)) w.session.tx_out) y w
      else (w, true)

  -- One tick, given the position that `GetCursorPos` finds, `none` where it fails.
  unfoldable pub tick : Option (ℤ × ℤ) → Watcher Q → Watcher Q × Bool
  unfolding on_position
  tick none w = (w, true)
  tick (some (x, y)) w = if w.session.active then on_position x y w else (w, true)

  -- `cursor_leave_watcher` over the positions of its ticks; it stops where the task returns.
  unfoldable pub cursor_leave_watcher : List (Option (ℤ × ℤ)) → Watcher Q → Watcher Q × Bool
  unfolding tick
  cursor_leave_watcher [] w = (w, true)
  cursor_leave_watcher (p ∷ ps) w =
      let next = tick p w in
      let rest = cursor_leave_watcher ps next.0 in if next.1 then rest else next
