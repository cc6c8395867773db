-- ===== src/Client/Tasks.antt =====
-- `run_session_tasks` of crates/client/src/app.rs on Windows: the tasks of a session, in whatever order
-- they run, until the first of them exits and the others are aborted. Each event is a whole round of its
-- task.
pub mod Runs
pub mod Release
pub mod Control
use kmwarp.Base.{
  ℕ, ◌+◌, ◌%◌, zero, suc, ℤ, Bool, true, false, Option, none, some, List, [], ◌∷◌, Result, ok, err,
  if◌then◌else◌,
}
use kmwarp.Clipboard.{EchoGuard, no_echo}
use kmwarp.Wire.{Message}
use kmwarp.Channel.{Sender}
use kmwarp.Client.{Session, ClientStatus, publish}
use kmwarp.Client.Pump.{injector_loop, drop_session, new_guard}
use kmwarp.Client.Watch.{Watcher, tick}
use kmwarp.Client.ClipboardOut.{on_change}
use kmwarp.Server.Tasks.{heartbeat_producer}

-- The reasons, which are only logged, are left out.
pub data TaskExit : Type 0 where
  encoder_failed encoder_closed heartbeat_failed reader_failed peer_bye_or_close : TaskExit
  deadline_expired cursor_watcher_exited clipboard_out_exited join_error : TaskExit

-- What makes a task run: the injector reads a frame or fails, the watcher ticks and finds the cursor,
-- the listener reports a local change or its channel closes, the heartbeat ticks, the deadline passes,
-- the encoder ends, well or not, and a task panics.
pub data Event (E : Type 0) : Type 0 where
  frame : Result Message E → Event E
  position : Option (ℤ × ℤ) → Event E
  local_change : List ℕ → Event E
  listener_closed beat silence panic : Event E
  encoder_ended : Bool → Event E

-- The session with the positions that the watcher set, and the number of the next heartbeat.
pub record Tasks (Q : Type 0) : Type 0 where
  pub watcher : Watcher Q
  pub seq : ℕ

abbrev pub with_session : {Q : Type 0} → Session Q → Tasks Q → Tasks Q
with_session s t = record t { watcher = record t.watcher { session = s } }

abbrev pub with_tx_out : {Q : Type 0} → Q → Tasks Q → Tasks Q
with_tx_out q t = with_session (record t.watcher.session { tx_out = q }) t

-- `spawn_injector`
abbrev pub injector_exit : {E : Type 0} → Option (Result (Unit {0}) E) → Option TaskExit
injector_exit none = none
injector_exit (some (ok _)) = some TaskExit.peer_bye_or_close
injector_exit (some (err _)) = some TaskExit.reader_failed

-- `false` is what a task returns with.
abbrev pub exit_unless : Bool → TaskExit → Option TaskExit
exit_unless true exit = none
exit_unless false exit = some exit

-- What the tasks share when they are spawned.
abbrev pub new_tasks : {Q : Type 0} → Q → Option ClientStatus → Tasks Q
new_tasks q status = record {
  watcher = record {
    session = record {
      guard = new_guard [] no_echo;
      tx_out = q;
      active = false;
      status = status;
      pulses = 0;
      clipboard = [];
    };
    parked = [];
  };
  seq = 0;
}

abbrev pub unless_exited :
    {Q : Type 0}
    → Tasks Q × Option TaskExit
    → (Tasks Q → Tasks Q × Option TaskExit)
    → Tasks Q × Option TaskExit
unless_exited (t, none) more = more t
unless_exited (t, some exit) more = (t, some exit)

-- The outbound channel and whether it is closed; the hash of the echo guard; whether a write to the
-- system's clipboard succeeds; the column to park the cursor at; the peer's address.
module _ {Q : Type 0} (tx : Sender Q) (is_closed : Q → Bool) (hash : List ℕ → List ℕ)
    (write_ok : List ℕ → Bool) (safe_warp_x : ℤ) (peer_addr : List ℕ) where
  abbrev pub run_injector : {E : Type 0} → Result Message E → Tasks Q → Tasks Q × Option TaskExit
  run_injector r t =
      let next = injector_loop tx hash write_ok peer_addr (r ∷ []) t.watcher.session in
      (with_session next.0 t, injector_exit next.1)

  abbrev pub run_watcher : Option (ℤ × ℤ) → Tasks Q → Tasks Q × Option TaskExit
  run_watcher p t =
      let next = tick tx safe_warp_x peer_addr p t.watcher in
      (record t { watcher = next.0 }, exit_unless next.1 TaskExit.cursor_watcher_exited)

  abbrev pub run_clipboard_out : List ℕ → Tasks Q → Tasks Q × Option TaskExit
  run_clipboard_out text t =
      let s = t.watcher.session in
      let next = on_change tx hash (text, s.guard.echo_guard) s.tx_out in
      (with_tx_out next.0 t, exit_unless next.1 TaskExit.clipboard_out_exited)

  abbrev pub run_heartbeat : Tasks Q → Tasks Q × Option TaskExit
  run_heartbeat t =
      let next = heartbeat_producer tx is_closed 1 t.seq t.watcher.session.tx_out in
      (
        record (with_tx_out next.0 t) { seq = (t.seq + 1) % 4294967296 },
        exit_unless next.1 TaskExit.heartbeat_failed,
      )

  unfoldable pub step : {E : Type 0} → Event E → Tasks Q → Tasks Q × Option TaskExit
  unfolding injector_loop tick on_change heartbeat_producer
  step (Event.frame r) t = run_injector r t
  step (Event.position p) t = run_watcher p t
  step (Event.local_change text) t = run_clipboard_out text t
  step Event.listener_closed t = (t, some TaskExit.clipboard_out_exited)
  step Event.beat t = run_heartbeat t
  step Event.silence t = (t, some TaskExit.deadline_expired)
  step Event.panic t = (t, some TaskExit.join_error)
  step (Event.encoder_ended true) t = (t, some TaskExit.encoder_closed)
  step (Event.encoder_ended false) t = (t, some TaskExit.encoder_failed)

  -- The tasks until one exits; `none` is a session that still runs.
  unfoldable pub until_exit : {E : Type 0} → List (Event E) → Tasks Q → Tasks Q × Option TaskExit
  unfolding step
  until_exit [] t = (t, none)
  until_exit (e ∷ es) t = unless_exited (step e t) (λ t'. until_exit es t')

  -- The siblings are aborted, which drops the injector and its guard.
  abbrev pub abort_all : Tasks Q × Option TaskExit → Session Q × Option TaskExit
  abort_all (t, exit) = (drop_session tx hash write_ok peer_addr t.watcher.session, exit)

  unfoldable pub run_session_tasks :
      {E : Type 0} → List (Event E) → Q → Option ClientStatus → Session Q × Option TaskExit
  unfolding until_exit drop_session
  run_session_tasks events q status = abort_all (until_exit events (new_tasks q status))
