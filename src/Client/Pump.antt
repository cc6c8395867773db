-- ===== src/Client/Pump.antt =====
-- crates/client/src/net/pump.rs: `InjectorGuard`, `dispatch_one` and `injector_loop_with_source`.
pub mod Release
pub mod Replies
use kmwarp.Base.{
  ℕ, ◌+◌, Bool, true, false, Option, none, some, List, [], ◌∷◌, ◌++◌, Result, ok, err, ◌==◌,
  if◌then◌else◌, pos,
}
use kmwarp.Platform.{SinkCall, KeyState, up}
use kmwarp.Platform.ModMask.{empty}
use kmwarp.StuckKeys
use kmwarp.Clipboard
use kmwarp.StuckKeys.{HeldKeys, insert, remove, drain, is_empty}
use kmwarp.Clipboard.{Reassembler, EchoGuard, ReassembleError, ingest, remember_remote_write, clear}
use kmwarp.Wire.{Message}
use kmwarp.Wire.Convert.{apply_mouse_to_sink, apply_key_to_sink}
use kmwarp.Channel.{Sender}
use kmwarp.Client.{InjectorGuard, Session, ClientStatus, publish}

-- `InjectorGuard::new`
abbrev pub new_guard : List SinkCall → EchoGuard → InjectorGuard
new_guard sink echo_guard = record {
  held = StuckKeys.new;
  reassembler = Clipboard.new;
  echo_guard = echo_guard;
  sink = sink;
}

abbrev pub key_ups : List ℕ → List SinkCall
key_ups [] = []
key_ups (hid ∷ hids) = SinkCall.inject_key hid up empty ∷ key_ups hids

-- `Drop for InjectorGuard`
unfoldable pub drop_guard : InjectorGuard → InjectorGuard
unfolding is_empty drain clear
drop_guard self =
    let released = if is_empty self.held then self else record self {
      held = (drain self.held).1;
      sink = self.sink ++ key_ups (drain self.held).0;
    } in
    record released { echo_guard = clear released.echo_guard }

unfoldable pub track_key_in_held : Message → HeldKeys → HeldKeys
track_key_in_held (Message.key_event hid_usage state _) held =
    if state == 1 then insert held hid_usage else if state == 0 then remove held hid_usage else held
track_key_in_held _ held = held

-- `TAKE_ENTRY_INSET_PX`
abbrev pub take_entry_inset_px : ℕ
take_entry_inset_px = 40

-- `matches!(msg, Message::Bye { .. })`
abbrev pub is_bye : Message → Bool
is_bye (Message.bye _) = true
is_bye _ = false

-- The outbound channel; the hash of the echo guard; whether a write to the system's clipboard
-- succeeds; the peer's address.
module _ {Q : Type 0} (tx : Sender Q) (hash : List ℕ → List ℕ) (write_ok : List ℕ → Bool)
    (peer_addr : List ℕ) where
  -- A completed payload, on Windows: it is written, and on success remembered.
  abbrev pub write_text : Result (Option (List ℕ)) ReassembleError → Session Q → Session Q
  write_text (ok (some text)) s =
      if write_ok text
      then record s {
        clipboard = s.clipboard ++ (text ∷ []);
        guard = record s.guard { echo_guard = remember_remote_write hash s.guard.echo_guard text };
      }
      else s
  write_text (ok none) s = s
  write_text (err e) s = s

  abbrev pub with_reassembler : Reassembler → Session Q → Session Q
  with_reassembler r s = record s { guard = record s.guard { reassembler = r } }

  unfoldable pub handle_clipboard_text : Message → Session Q → Session Q
  unfolding ingest
  handle_clipboard_text msg s =
      let taken = ingest s.guard.reassembler msg in write_text taken.0 (with_reassembler taken.1 s)

  -- The `match msg` of what neither mouse nor key has taken.
  unfoldable pub dispatch_control : Message → Session Q → Session Q
  unfolding handle_clipboard_text
  dispatch_control (Message.echo_ping ts_ns) s = record s {
    tx_out = (tx.try_send (Message.echo_pong ts_ns) s.tx_out).1;
  }
  dispatch_control (Message.take_control entry_y) s = record s {
    guard = record s.guard {
      sink =
          s.guard.sink ++ (SinkCall.warp_cursor_abs (pos take_entry_inset_px) (pos entry_y) ∷ []);
    };
    active = true;
    status = publish (ClientStatus.driven peer_addr) s.status;
  }
  dispatch_control (Message.clipboard_text chunk_flags bytes) s =
      handle_clipboard_text (Message.clipboard_text chunk_flags bytes) s
  dispatch_control _ s = s

  abbrev pub with_sink : List SinkCall → Session Q → Session Q
  with_sink sink s = record s { guard = record s.guard { sink = sink } }

  unfoldable pub after_key : Bool × List SinkCall → Message → Session Q → Session Q
  unfolding dispatch_control
  after_key (true, sink) msg s = with_sink sink s
  after_key (false, sink) msg s = dispatch_control msg (with_sink sink s)

  unfoldable pub after_mouse : Bool × List SinkCall → Message → Session Q → Session Q
  unfolding apply_key_to_sink after_key
  after_mouse (true, sink) msg s = with_sink sink s
  after_mouse (false, sink) msg s = after_key (apply_key_to_sink msg sink) msg (with_sink sink s)

  unfoldable pub dispatch_one : Message → Session Q → Session Q
  unfolding track_key_in_held apply_mouse_to_sink after_mouse
  dispatch_one msg s =
      let tracked = record s {
        guard = record s.guard { held = track_key_in_held msg s.guard.held };
      } in
      after_mouse (apply_mouse_to_sink msg tracked.guard.sink) msg tracked

  -- The loop over what the frame source yields, `err` being its failure. The result is `none` where
  -- the frames given so far end neither the loop nor the session: it waits, and may be aborted.
  unfoldable pub injector_loop :
      {E : Type 0} → List (Result Message E) → Session Q → Session Q × Option (Result (Unit {0}) E)
  unfolding dispatch_one
  injector_loop [] s = (s, none)
  injector_loop (err e ∷ frames) s = (s, some (err e))
  injector_loop (ok msg ∷ frames) s =
      let next = dispatch_one msg (record s { pulses = s.pulses + 1 }) in
      let rest = injector_loop frames next in if is_bye msg then (next, some (ok tt)) else rest

  -- The session when the loop's future is dropped, whatever ended it.
  unfoldable pub drop_session : Session Q → Session Q
  unfolding drop_guard
  drop_session s = record s { guard = drop_guard s.guard }
