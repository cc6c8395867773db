-- ===== src/Tests/Sessions.antt =====
-- The sessions of both machines at concrete inputs.
use kmwarp.Base.{
  ℕ, ◌≡◌, refl, Bool, true, false, Bool-cases, inl, inr, List, [], ◌∷◌, ◌++◌, append-nil, Option,
  none, some, Result, ok, err, ℤ, pos, ltb, length, arith, mul_ℤ, negsuc, if◌then◌else◌,
}
use kmwarp.Platform.{SourceEvent, SinkCall, down}
use kmwarp.StuckKeys.{is_held}
use kmwarp.Clipboard.{EchoGuard, no_echo, remember_remote_write}
use kmwarp.Hid.{WinScancode}
use kmwarp.Inject.{win32_calls, win_input_sink, inject_mouse_wheel, inject_mouse_rel, wheel_delta}
use kmwarp.Inject.Wheel.{scrolled, clicks, vertical, win32_calls-scrolled}
use kmwarp.Wire.{Message}
use kmwarp.Edge
use kmwarp.Edge.{clamp_to_u16, on_wire_message, on_local_event}
use kmwarp.Wire.Convert.{source_event_to_message}
use kmwarp.Edge.Protocol.{Input, local, wire, step, is_remote}
use kmwarp.Modmap
use kmwarp.Channel.{Sender, SendResult, sent, full, taken}
use kmwarp.Client.{Session}
use kmwarp.Client.Pump.{injector_loop, drop_session, dispatch_one, new_guard, take_entry_inset_px}
use kmwarp.Client.Pump.Release.{key_is_down, injector_loop-drop_session}
use kmwarp.Client.Pump.Replies.{handled, calls_of, pongs_of, flat, injector_loop-handled}
use kmwarp.Client.Watch.{Watcher, cursor_leave_watcher}
use kmwarp.Client.Watch.Handback.{cursor_leave_watcher-take_control}
use kmwarp.Server.Brain.{edge_brain_task, brain_round}
use kmwarp.Server.Brain.Keys.{wire_is_down}
use kmwarp.Server.Brain.Release.{brain_start, edge_brain_task-is_held, edge_brain_task_local}

-- A channel that is drained as fast as it is filled.
abbrev pub drained : Sender (List Message)
drained = record {
  try_send = λ msg q. (sent, q ++ (msg ∷ []));
  accepted = λ q. q;
  accepts = λ msg q. refl;
}

-- A channel of 256 places that nobody drains.
abbrev send_bounded : Message → List Message → SendResult × List Message
send_bounded msg q = if ltb (length q) 256 then (sent, q ++ (msg ∷ [])) else (full, q)

bounded_accepts :
    (msg : Message) (q : List Message)
    → (send_bounded msg q).1 ≡ q ++ taken (send_bounded msg q).0 msg
bounded_accepts msg q = elim (Bool-cases (ltb (length q) 256)) [
  | inl room ↦ rw (room, send_bounded)
  | inr none_left ↦ rw (none_left, send_bounded, append-nil)
]

abbrev bounded : Sender (List Message)
bounded = record { try_send = send_bounded; accepted = λ q. q; accepts = bounded_accepts }

abbrev session : Session (List Message)
session = record {
  guard = new_guard [] no_echo;
  tx_out = [];
  active = false;
  status = none;
  pulses = 0;
  clipboard = [];
}

abbrev frames_in : List (Result Message Bool)
frames_in =
    ok (Message.take_control 300)
    ∷ ok (Message.key_event 225 1 0)
    ∷ ok (Message.key_event 4 1 2)
    ∷ ok (Message.echo_ping 9)
    ∷ ok (Message.key_event 4 0 2)
    ∷ err true
    ∷ []

abbrev left_shift : WinScancode
left_shift = record { code = 42; extended = false }

injector_loop-drop_session_example :
    let ended =
      (injector_loop bounded
        (λ t. t)
        (λ t. true)
        []
        frames_in
        (record session { guard = new_guard [] no_echo })).0 in
    (is_held ended.guard.held 225 ≡ key_is_down 225 false ended.guard.sink)
    × (key_is_down 225 false (drop_session bounded (λ t. t) (λ t. true) [] ended).guard.sink
        ≡ false)
injector_loop-drop_session_example =
    injector_loop-drop_session bounded (λ t. t) (λ t. true) [] frames_in session no_echo 225

injector_loop-handled_example :
    let ended = (injector_loop drained (λ t. t) (λ t. true) [] frames_in session).0 in
    (ended.guard.sink ≡ session.guard.sink ++ flat calls_of (handled frames_in))
    × (ended.tx_out ≡ session.tx_out ++ flat pongs_of (handled frames_in))
injector_loop-handled_example =
    injector_loop-handled drained (λ t. t) (λ t. true) [] (λ msg q. refl) frames_in session

cursor_leave_watcher-take_control_example :
    let begun : Watcher (List Message) = record {
      session = dispatch_one bounded (λ t. t) (λ t. true) [] (Message.take_control 300) session;
      parked = [];
    } in
    let positions : List (Option (ℤ × ℤ)) =
      (some (pos take_entry_inset_px, pos 300) ∷ some (pos 7, pos 299) ∷ none ∷ [])
      ++ (some (pos 0, pos 298) ∷ some (pos 0, pos 297) ∷ []) in
    let release = Message.release_control (clamp_to_u16 (pos 298)) in
    (cursor_leave_watcher bounded (pos 100) [] positions begun).0.session.tx_out
    ≡ [] ++ taken (bounded.try_send release []).0 release
cursor_leave_watcher-take_control_example =
    cursor_leave_watcher-take_control bounded (pos 100) [] (λ t. t) (λ t. true) 300 session []
      (some (pos 7, pos 299) ∷ none ∷ []) (some (pos 0, pos 297) ∷ []) (pos 0) (pos 298)
      (refl, (tt, tt)) refl

-- Over the right edge with a key pressed there and never released, and back.
abbrev trip : List (Input × ℕ)
trip =
    (local (SourceEvent.cursor_at (pos 1920) (pos 300)), 100)
    ∷ (local (SourceEvent.key 227 down (record { bits = 0 })), 120)
    ∷ (wire (Message.release_control 310), 200)
    ∷ []

edge_brain_task-is_held_example :
    let ended =
      edge_brain_task drained Modmap.default []
        (λ x y. none)
        (pos 1920)
        trip
        (brain_start drained Modmap.default [] (λ x y. none) (pos 1920) Edge.default [] none) in
    (ended.swallow ≡ is_remote ended.sm.state)
    × (is_held ended.held 224 ≡ wire_is_down 224 false ended.tx_out)
edge_brain_task-is_held_example =
    edge_brain_task-is_held drained Modmap.default [] (λ x y. none) (pos 1920) (λ msg q. refl)
      Edge.default [] none (λ j. refl) trip 224

edge_brain_task_local_example :
    wire_is_down 224 false
      (edge_brain_task drained Modmap.default []
        (λ x y. none)
        (pos 1920)
        trip
        (brain_start drained Modmap.default []
          (λ x y. none)
          (pos 1920)
          Edge.default
          []
          none)).tx_out
    ≡ false
unfolding edge_brain_task brain_round Edge.new step on_wire_message on_local_event
    source_event_to_message
edge_brain_task_local_example =
    edge_brain_task_local drained Modmap.default [] (λ x y. none) (pos 1920) (λ msg q. refl)
      Edge.default [] none (λ j. refl) trip 224 refl

-- The same without the way back.
abbrev away : List (Input × ℕ)
away =
    (local (SourceEvent.cursor_at (pos 1920) (pos 300)), 100)
    ∷ (local (SourceEvent.key 227 down (record { bits = 0 })), 120)
    ∷ []

-- A text of the peer comes back as a local change, then another text.
abbrev changes : List (List ℕ × EchoGuard)
changes =
    (104 ∷ 105 ∷ [], remember_remote_write (λ t. t) no_echo (104 ∷ 105 ∷ []))
    ∷ (111 ∷ 107 ∷ [], remember_remote_write (λ t. t) no_echo (104 ∷ 105 ∷ []))
    ∷ []

abbrev wheel_calls : List SinkCall
wheel_calls =
    SinkCall.inject_mouse_wheel (pos 1) (negsuc 2)
    ∷ SinkCall.inject_mouse_rel (pos 5) (pos 0)
    ∷ SinkCall.inject_mouse_wheel (pos 0) (pos 1)
    ∷ []

win32_calls-scrolled_example :
    scrolled vertical (win32_calls wheel_calls) ≡ mul_ℤ (clicks vertical wheel_calls) wheel_delta
win32_calls-scrolled_example = win32_calls-scrolled vertical wheel_calls (
  (omega arith, omega arith),
  (omega arith, omega arith),
  ((omega arith, omega arith), (omega arith, omega arith), tt),
)

-- 120 up for one click less 360 down for three.
scroll_test : scrolled vertical (win32_calls wheel_calls) ≡ negsuc 239
unfolding win_input_sink inject_mouse_wheel inject_mouse_rel
scroll_test = refl
