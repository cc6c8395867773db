-- ===== src/Tests/Tasks.antt =====
-- The tasks of both sessions, the clipboard of the Mac, and the loops around the sessions at concrete
-- inputs.
use kmwarp.Base.{
  ℕ, ◌+◌, ◌≡◌, refl, inl, Bool, true, false, List, [], ◌∷◌, Option, none, some, ok, pos, arith,
}
use kmwarp.Platform.{SourceEvent, down}
use kmwarp.Hid.{WinScancode, find_value}
use kmwarp.Hid.Lookup.{hid_to_windows_scancode}
use kmwarp.Inject.{win32_calls}
use kmwarp.Inject.Keys.{scancode_is_down}
use kmwarp.Clipboard
use kmwarp.Wire.{Message}
use kmwarp.Edge
use kmwarp.Modmap
use kmwarp.Client.{ClientStatus, publish}
use kmwarp.Client.Tasks.{Event, run_session_tasks}
use kmwarp.Client.Tasks.Release.{run_session_tasks-win32_calls}
use kmwarp.Server.ClipSync.{Pasteboard}
use kmwarp.Server.Peer
use kmwarp.Tests.Sessions.{drained}

abbrev left_shift : WinScancode
left_shift = record { code = 42; extended = false }

-- Taken, a key pressed, the cursor at the left edge, and the peer silent.
abbrev visit : List (Event Bool)
visit =
    Event.frame (ok (Message.take_control 300))
    ∷ Event.frame (ok (Message.key_event 225 1 2))
    ∷ Event.beat
    ∷ Event.position (some (pos 0, pos 200))
    ∷ Event.local_change (b'a' ∷ [])
    ∷ Event.silence
    ∷ []

run_session_tasks-win32_calls_example :
    let ended =
      (run_session_tasks drained (λ q. false) (λ t. t) (λ t. true) (pos 900) [] visit [] none).0 in
    (scancode_is_down left_shift false (win32_calls ended.guard.sink) ≡ false)
    × (ended.guard.echo_guard.last_remote_hash ≡ none)
unfolding hid_to_windows_scancode find_value
run_session_tasks-win32_calls_example =
    run_session_tasks-win32_calls drained (λ q. false) (λ t. t) (λ t. true) (pos 900) [] visit []
      none 225 left_shift refl

-- A pasteboard that counts its changes.
abbrev toy_board : Pasteboard (ℕ × Option (List ℕ))
toy_board = record {
  change_count = λ p. p.0;
  string = λ p. p.1;
  write = λ text p. (p.0 + 1, some text);
  copy = λ content p. (p.0 + 1, content);
  write_grows = λ text p. omega arith;
  write_string = λ text p. inl refl;
  copy_grows = λ content p. omega arith;
  copy_string = λ content p. refl;
}

-- Over the right edge, a key pressed there, and the client says Bye.
abbrev trip : List (Peer.Event Bool)
trip =
    Peer.Event.tap (SourceEvent.cursor_at (pos 1920) (pos 300))
    ∷ Peer.Event.tap (SourceEvent.key 227 down (record { bits = 0 }))
    ∷ Peer.Event.brain_turn 100
    ∷ Peer.Event.brain_turn 120
    ∷ Peer.Event.user_copies (some (b'b' ∷ []))
    ∷ Peer.Event.watcher_turn
    ∷ Peer.Event.watcher_turn
    ∷ Peer.Event.clip_out_turn
    ∷ Peer.Event.beat
    ∷ Peer.Event.frame (ok (Message.bye 0))
    ∷ []

-- A key that is pressed while the held ones are drained, and a heartbeat.
abbrev aftermath : List (Peer.Event Bool)
aftermath =
    Peer.Event.tap (SourceEvent.key 4 down (record { bits = 0 }))
    ∷ Peer.Event.brain_turn 200
    ∷ Peer.Event.beat
    ∷ []
