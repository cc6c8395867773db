-- ===== src/Server/Tasks.antt =====
-- crates/server/src/app.rs: the tasks of a session beside the brain. `reader_task` routes what the client
-- sends, `heartbeat_producer` and `deadline_watcher` keep the session alive or end it; the last two are
-- the same in crates/client/src/app.rs. The feature `latency-probe` is off.
pub mod Routes
pub mod Alive
use kmwarp.Base.{
  ℕ, zero, suc, ◌+◌, ◌%◌, Bool, true, false, List, [], ◌∷◌, Option, none, some, ltb, if◌then◌else◌,
}
use kmwarp.Wire.{Message}
use kmwarp.Channel.{Sender, SendResult, sent, full, closed}

-- Milliseconds.
abbrev pub heartbeat_period : ℕ
heartbeat_period = 500

abbrev pub silence_deadline : ℕ
silence_deadline = 2000

-- What the reader writes to: the outbound channel, the channels of the brain and of the clipboard task,
-- where these were installed, and the pulses of the deadline's `Notify`.
pub record Reader (Q B C : Type 0) : Type 0 where
  pub tx_out : Q
  pub brain_tx : Option B
  pub clip_in_tx : Option C
  pub pulses : ℕ

-- `if let Some(tx) = … { tx.try_send(m) }`, whose failure is logged.
abbrev pub send_if : {Q : Type 0} → Sender Q → Message → Option Q → Option Q
send_if tx m none = none
send_if tx m (some q) = some (tx.try_send m q).1

abbrev pub pulse : {Q B C : Type 0} → Reader Q B C → Reader Q B C
pulse r = record r { pulses = suc r.pulses }

module _ {Q B C : Type 0} (tx : Sender Q) (brain : Sender B) (clip : Sender C) where
  -- One frame but `Bye`, after its pulse. The brain gets the frame as a `BrainInput::WireMessage`.
  unfoldable pub route : Message → Reader Q B C → Reader Q B C
  route (Message.echo_ping ts_ns) r = record r {
    tx_out = (tx.try_send (Message.echo_pong ts_ns) r.tx_out).1;
  }
  route (Message.release_control exit_y) r = record r {
    brain_tx = send_if brain (Message.release_control exit_y) r.brain_tx;
  }
  route (Message.clipboard_text flags bs) r = record r {
    clip_in_tx = send_if clip (Message.clipboard_text flags bs) r.clip_in_tx;
  }
  route m r = r

  -- The frames that `read_frame` returns, in order; it then fails, which ends the task as `Bye` does.
  unfoldable pub reader_task : List Message → Reader Q B C → Reader Q B C
  unfolding route
  reader_task [] r = r
  reader_task (Message.bye reason_code ∷ ms) r = pulse r
  reader_task (m ∷ ms) r = reader_task ms (route m (pulse r))

abbrev pub beat_sent : {Q : Type 0} → SendResult × Q → (Q → Q × Bool) → Q × Bool
beat_sent (sent, q) next = next q
beat_sent (full, q) next = next q
beat_sent (closed, q) next = (q, false)

module _ {Q : Type 0} (tx : Sender Q) (is_closed : Q → Bool) where
  -- That many ticks of the interval; `false` means that the channel was closed, which ends the task.
  unfoldable pub heartbeat_producer : (ticks seq : ℕ) → Q → Q × Bool
  heartbeat_producer zero seq q = (q, true)
  heartbeat_producer (suc ticks) seq q =
      let beat =
        beat_sent (tx.try_send (Message.heartbeat seq) q)
          (heartbeat_producer ticks ((seq + 1) % 4294967296)) in
      if is_closed q then (q, false) else beat

-- The times between one pulse and the next, in milliseconds; `true` means that none was too long.
unfoldable pub deadline_watcher : List ℕ → Bool
deadline_watcher [] = true
deadline_watcher (gap ∷ gaps) =
    let rest = deadline_watcher gaps in if ltb gap silence_deadline then rest else false
