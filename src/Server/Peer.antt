-- ===== src/Server/Peer.antt =====
-- The tasks of a session in `handle_peer` of crates/server/src/app.rs, in whatever order they run, and
-- its end: the first exit, the drain of the held keys while the others go on, the echo guard, and the
-- abort of the others. The
-- feature `latency-probe` is off.
mod Quiet
pub mod Release
use kmwarp.Base.{
  ℕ, ◌+◌, ◌%◌, ◌≡◌, refl, sym, ◌∙◌, ap, ℤ, Bool, true, false, Bool-cases, inl, inr, List, [], ◌∷◌,
  ◌++◌, append-nil, drop, Option, none, some, Result, ok, err, ltb, length, if◌then◌else◌,
}
use kmwarp.Platform.{SourceEvent}
use kmwarp.StuckKeys.{drain}
use kmwarp.Modmap.{ModRemap}
use kmwarp.Clipboard.{EchoGuard, clear}
use kmwarp.Wire.{Message}
use kmwarp.Edge.{EdgeConfig}
use kmwarp.Edge.Protocol.{Input, local, wire}
use kmwarp.Channel.{Sender, SendResult, sent, full, taken}
use kmwarp.Server.{BrainState, ServerStatus}
use kmwarp.Server.Brain.{brain_round}
use kmwarp.Server.Brain.Release.{brain_start}
use kmwarp.Server.Disconnect.{SendOutcome, send_releases}
use kmwarp.Server.Tasks.{Reader, reader_task, heartbeat_producer}
use kmwarp.Server.ClipSync.{
  Pasteboard, ClipState, clipboard_in, clipboard_out, write_due, watch, clip_start,
}

-- The reasons, which are only logged, are left out.
pub data TaskExit : Type 0 where
  encoder_failed encoder_closed heartbeat_failed reader_failed deadline_expired : TaskExit
  source_forwarder_failed edge_brain_failed clipboard_out_failed clipboard_in_failed : TaskExit
  join_error : TaskExit

abbrev pub brain_channel_bound : ℕ
brain_channel_bound = 256

abbrev pub clipboard_in_channel_bound : ℕ
clipboard_in_channel_bound = 64

-- A bounded channel as the queue of what is in it; what does not fit is dropped.
abbrev pub push {ℓ} : {A : Type ℓ} → ℕ → A → List A → List A
push bound a q = if ltb (length q) bound then q ++ (a ∷ []) else q

-- What makes a task run: the tap reports an event or its channel closes, the reader reads a frame or
-- fails, the brain takes an input at a time, the clipboard tasks take a step, the user copies, the
-- watcher takes a step or stops, the heartbeat ticks, the deadline passes, the encoder ends, well or not, and a
-- task panics.
pub data Event (E : Type 0) : Type 0 where
  tap : SourceEvent → Event E
  frame : Result Message E → Event E
  brain_turn : (now_ms : ℕ) → Event E
  user_copies : Option (List ℕ) → Event E
  tap_closed clip_turn watcher_turn clip_out_turn watcher_gone beat silence panic : Event E
  encoder_ended : Bool → Event E

-- The brain, whose outbound channel is that of all tasks; the queues to the brain and to the clipboard
-- task; the clipboard; the pulses of the deadline; the number of the next heartbeat.
pub record Peer (P Q : Type 0) : Type 0 where
  pub brain : BrainState Q
  pub brain_queue : List Input
  pub clip_queue : List Message
  pub clip : ClipState P Q
  pub pulses : ℕ
  pub seq : ℕ

-- Two sequences as one: at each turn `true` takes from the first.
abbrev pub merge {ℓ} : {A : Type ℓ} → (turns : List Bool) → List A → List A → List A
merge [] xs ys = xs ++ ys
merge (true ∷ turns) [] ys = ys
merge (true ∷ turns) (x ∷ xs) ys = x ∷ merge turns xs ys
merge (false ∷ turns) xs [] = xs
merge (false ∷ turns) xs (y ∷ ys) = y ∷ merge turns xs ys

abbrev pub wires : List Input → List Message
wires [] = []
wires (wire msg ∷ inputs) = msg ∷ wires inputs
wires (local ev ∷ inputs) = wires inputs

abbrev pub with_tx_out : {P Q : Type 0} → Q → Peer P Q → Peer P Q
with_tx_out q p = record p { brain = record p.brain { tx_out = q } }

abbrev pub exit_unless : Bool → TaskExit → Option TaskExit
exit_unless true exit = none
exit_unless false exit = some exit

abbrev pub outcome_of : Bool → SendResult
outcome_of true = sent
outcome_of false = full

wires-append :
    (inputs : List Input) (msg : Message)
    → wires (inputs ++ (wire msg ∷ [])) ≡ wires inputs ++ (msg ∷ [])
wires-append [] msg = refl
wires-append (wire m ∷ inputs) msg = ap (λ ms. m ∷ ms) (wires-append inputs msg)
wires-append (local ev ∷ inputs) msg = wires-append inputs msg

pub brain_takes :
    (msg : Message) (q : List Input) (room : Bool)
    → wires (if room then q ++ (wire msg ∷ []) else q) ≡ wires q ++ taken (outcome_of room) msg
brain_takes msg q true = wires-append q msg
brain_takes msg q false = sym (append-nil (wires q))

pub clip_takes :
    (msg : Message) (q : List Message) (room : Bool)
    → (if room then q ++ (msg ∷ []) else q) ≡ q ++ taken (outcome_of room) msg
clip_takes msg q true = refl
clip_takes msg q false = sym (append-nil q)

-- The reader's ends of the two channels, for which only its own messages count as accepted.
abbrev pub brain_tx : Sender (List Input)
brain_tx = record {
  try_send = λ msg q.
      (outcome_of (ltb (length q) brain_channel_bound), push brain_channel_bound (wire msg) q);
  accepted = wires;
  accepts = λ msg q. brain_takes msg q (ltb (length q) brain_channel_bound);
}

abbrev pub clip_in_tx : Sender (List Message)
clip_in_tx = record {
  try_send = λ msg q. (
    outcome_of (ltb (length q) clipboard_in_channel_bound),
    push clipboard_in_channel_bound msg q,
  );
  accepted = λ q. q;
  accepts = λ msg q. clip_takes msg q (ltb (length q) clipboard_in_channel_bound);
}

abbrev pub some_if {ℓ} : {A : Type ℓ} → Bool → A → Option A
some_if true a = some a
some_if false a = none

abbrev pub get_or {ℓ} : {A : Type ℓ} → A → Option A → A
get_or a none = a
get_or a (some b) = b

-- The pasteboard; the outbound channel and whether it is closed; the hash of the echo guard; the
-- modifier mapping; the peer; the geometry of the displays; whether the tap and the watcher of the
-- pasteboard could be installed.
module _ {P Q : Type 0} (pb : Pasteboard P) (tx : Sender Q) (is_closed : Q → Bool)
    (hash : List ℕ → List ℕ) (mod_remap : ModRemap) (remote : List ℕ)
    (display_right_at : ℤ → ℤ → Option ℤ) (global_right : ℤ) (has_tap has_watcher : Bool) where
  -- What the tasks are spawned with.
  abbrev pub peer_start : EdgeConfig → P → Q → Option ServerStatus → Peer P Q
  peer_start cfg board q status = record {
    brain = brain_start tx mod_remap remote display_right_at global_right cfg q status;
    brain_queue = [];
    clip_queue = [];
    clip = clip_start pb tx hash board q;
    pulses = 0;
    seq = 0;
  }

  -- `source_forwarder_task`, one event; the task runs where the tap is installed.
  unfoldable pub source_forwarder : SourceEvent → Peer P Q → Peer P Q
  source_forwarder ev p =
      if has_tap
      then record p { brain_queue = push brain_channel_bound (local ev) p.brain_queue }
      else p

  abbrev pub after_read : Reader Q (List Input) (List Message) → Peer P Q → Peer P Q
  after_read r p = record (with_tx_out r.tx_out p) {
    brain_queue = get_or p.brain_queue r.brain_tx;
    clip_queue = get_or p.clip_queue r.clip_in_tx;
    pulses = r.pulses;
  }

  -- The reader's `brain_tx` and `clip_in_tx` are missing where the installation failed.
  unfoldable pub read_one : Message → Peer P Q → Peer P Q
  unfolding reader_task
  read_one msg p =
      after_read
        (reader_task tx brain_tx clip_in_tx (msg ∷ []) (record {
          tx_out = p.brain.tx_out;
          brain_tx = some_if has_tap p.brain_queue;
          clip_in_tx = some_if has_watcher p.clip_queue;
          pulses = p.pulses;
        }))
        p

  abbrev pub read_exit : Message → Option TaskExit
  read_exit (Message.bye reason_code) = some TaskExit.reader_failed
  read_exit msg = none

  abbrev pub take_input : List Input → ℕ → Peer P Q → Peer P Q
  take_input [] now_ms p = p
  take_input (input ∷ inputs) now_ms p = record p {
    brain = brain_round tx mod_remap remote display_right_at global_right input now_ms p.brain;
    brain_queue = inputs;
  }

  -- The write that is due, or the next frame.
  abbrev pub take_frame : Option (List ℕ) → List Message → Peer P Q → Peer P Q
  take_frame (some text) msgs p = record p { clip = write_due pb tx hash text p.clip }
  take_frame none [] p = p
  take_frame none (msg ∷ msgs) p = record p {
    clip = clipboard_in pb tx hash msg p.clip;
    clip_queue = msgs;
  }

  -- `clipboard_out_task` sends over the shared channel.
  abbrev pub run_clip_out : Peer P Q → Peer P Q × Option TaskExit
  run_clip_out p =
      let next =
        clipboard_out pb tx hash p.clip.changes (record p.clip { tx_out = p.brain.tx_out }) in
      (
        record (with_tx_out next.0.tx_out p) { clip = next.0 },
        exit_unless next.1 TaskExit.clipboard_out_failed,
      )

  abbrev pub run_heartbeat : Peer P Q → Peer P Q × Option TaskExit
  run_heartbeat p =
      let next = heartbeat_producer tx is_closed 1 p.seq p.brain.tx_out in
      (
        record (with_tx_out next.0 p) { seq = (p.seq + 1) % 4294967296 },
        exit_unless next.1 TaskExit.heartbeat_failed,
      )

  unfoldable pub step : {E : Type 0} → Event E → Peer P Q → Peer P Q × Option TaskExit
  unfolding source_forwarder read_one brain_round clipboard_in watch heartbeat_producer
  step (Event.tap ev) p = (source_forwarder ev p, none)
  step Event.tap_closed p = (p, if has_tap then some TaskExit.source_forwarder_failed else none)
  step (Event.frame (ok msg)) p = (read_one msg p, read_exit msg)
  step (Event.frame (err e)) p = (p, some TaskExit.reader_failed)
  step (Event.brain_turn now_ms) p = (take_input p.brain_queue now_ms p, none)
  step Event.clip_turn p = (take_frame p.clip.to_write p.clip_queue p, none)
  step (Event.user_copies content) p =
      (record p { clip = record p.clip { pasteboard = pb.copy content p.clip.pasteboard } }, none)
  step Event.watcher_turn p =
      ((if has_watcher then record p { clip = watch pb tx hash p.clip } else p), none)
  step Event.clip_out_turn p = if has_watcher then run_clip_out p else (p, none)
  step Event.watcher_gone p = (p, if has_watcher then some TaskExit.clipboard_out_failed else none)
  step Event.beat p = run_heartbeat p
  step Event.silence p = (p, some TaskExit.deadline_expired)
  step Event.panic p = (p, some TaskExit.join_error)
  step (Event.encoder_ended true) p = (p, some TaskExit.encoder_closed)
  step (Event.encoder_ended false) p = (p, some TaskExit.encoder_failed)

  abbrev pub unless_exited : Peer P Q × Option TaskExit → (Peer P Q → Peer P Q) → Peer P Q
  unless_exited (p, none) more = more p
  unless_exited (p, some exit) more = p

  -- `wait_for_first_exit`: what the session has become by then.
  unfoldable pub until_exit : {E : Type 0} → List (Event E) → Peer P Q → Peer P Q
  unfolding step
  until_exit [] p = p
  until_exit (e ∷ es) p = unless_exited (step e p) (λ p'. until_exit es p')

  -- The siblings that still run during the drain, which has emptied the tracker. A task that exits
  -- meanwhile is not waited for, so more events are allowed here than can happen.
  abbrev pub drained : Peer P Q → Peer P Q
  drained p = record p { brain = record p.brain { held = (drain p.brain.held).1 } }

  unfoldable pub siblings_run : {E : Type 0} → List (Event E) → Peer P Q → Peer P Q
  unfolding step
  siblings_run [] p = p
  siblings_run (e ∷ es) p = siblings_run es (step e p).0

  -- What the siblings send during the drain.
  abbrev pub sent_meanwhile : {E : Type 0} → List (Event E) → Peer P Q → List Message
  sent_meanwhile events p =
      drop (length (tx.accepted p.brain.tx_out))
        (tx.accepted (siblings_run events (drained p)).brain.tx_out)

  -- After the first exit, until the abort: the messages that the channel has accepted, those of the
  -- drain, given how its sends end, among those of the siblings, in the order that `turns` gives; and
  -- the echo guard.
  unfoldable pub end_session :
      {E : Type 0}
      → List SendOutcome
      → (turns : List Bool) → List (Event E)
      → Peer P Q
      → List Message × EchoGuard
  unfolding drain send_releases clear
  end_session outcomes turns events p = (
    tx.accepted p.brain.tx_out
        ++ merge turns (sent_meanwhile events p) (send_releases (drain p.brain.held).0 outcomes),
    clear (siblings_run events (drained p)).clip.echo_guard,
  )
