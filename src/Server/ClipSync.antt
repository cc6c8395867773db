-- ===== src/Server/ClipSync.antt =====
-- `clipboard_out_task` and `clipboard_in_task` of crates/server/src/app.rs, and `watch_loop` with the reads
-- and writes of crates/server/src/platform/macos/clipboard.rs: the clipboard of the Mac. The pasteboard
-- itself is the system's.
use kmwarp.Base.{
  ℕ, ◌<◌, ◌≡◌, ◌⊎◌, Bool, true, List, [], ◌∷◌, ◌++◌, Option, none, some, Result, ok, err, ◌==◌, ltb,
  length, if◌then◌else◌,
}
use kmwarp.Wire.{Message}
use kmwarp.Channel.{Sender}
use kmwarp.Client.ClipboardOut.{on_change}
use kmwarp.Clipboard
use kmwarp.Clipboard.{
  Reassembler, ReassembleError, EchoGuard, no_echo, ingest, remember_remote_write,
}

-- `NSPasteboard`. It documents that the change count grows with each change of the contents; a write
-- clears the contents first, and the string may then fail to be set.
pub record Pasteboard (P : Type 0) : Type 0 where
  pub change_count : P → ℕ
  pub string : P → Option (List ℕ)
  pub write : List ℕ → P → P
  pub copy : Option (List ℕ) → P → P
  pub write_grows : (text : List ℕ) (p : P) → change_count p < change_count (write text p)
  pub write_string :
      (text : List ℕ) (p : P) → (string (write text p) ≡ some text) ⊎ (string (write text p) ≡ none)
  pub copy_grows :
      (content : Option (List ℕ)) (p : P) → change_count p < change_count (copy content p)
  pub copy_string : (content : Option (List ℕ)) (p : P) → string (copy content p) ≡ content

abbrev pub event_channel_bound : ℕ
event_channel_bound = 64

-- The pasteboard; of the watcher's thread, the count that it saw last and the text that it is sending;
-- the channel of changes; the guard; of `clipboard_in_task`, the reassembler and the text that is
-- remembered and not yet written; the outbound channel.
pub record ClipState (P Q : Type 0) : Type 0 where
  pub pasteboard : P
  pub last_cc : ℕ
  pub sending : Option (List ℕ)
  pub changes : List (List ℕ)
  pub echo_guard : EchoGuard
  pub reassembler : Reassembler
  pub to_write : Option (List ℕ)
  pub tx_out : Q

module _ {P Q : Type 0} (pb : Pasteboard P) (tx : Sender Q) (hash : List ℕ → List ℕ) where
  -- `clipboard_out_task`, one change: the same code as on the client. `false` is a task that returns.
  abbrev pub clipboard_out : List (List ℕ) → ClipState P Q → ClipState P Q × Bool
  clipboard_out [] s = (s, true)
  clipboard_out (text ∷ changes) s =
      let forwarded = on_change tx hash (text, s.echo_guard) s.tx_out in
      (record s { changes = changes; tx_out = forwarded.0 }, forwarded.1)

  -- The thread of `watch_loop` waits in `blocking_send` while the channel is full.
  abbrev pub emit : Option (List ℕ) → ClipState P Q → ClipState P Q
  emit (some text) s =
      if ltb (length s.changes) event_channel_bound
      then record s { changes = s.changes ++ (text ∷ []); sending = none }
      else s
  emit none s =
      let cc = pb.change_count s.pasteboard in
      if cc == s.last_cc then s else record s { last_cc = cc; sending = pb.string s.pasteboard }

  -- One step of `watch_loop`: a send that is due, or a poll.
  unfoldable pub watch : ClipState P Q → ClipState P Q
  watch s = emit s.sending s

  abbrev pub remember_if : Result (Option (List ℕ)) ReassembleError → ClipState P Q → ClipState P Q
  remember_if (ok (some text)) s = record s {
    echo_guard = remember_remote_write hash s.echo_guard text;
    to_write = some text;
  }
  remember_if (ok none) s = s
  remember_if (err e) s = s

  -- `clipboard_in_task`, one frame up to the write of a text that it completes.
  unfoldable pub clipboard_in : Message → ClipState P Q → ClipState P Q
  unfolding ingest remember_remote_write
  clipboard_in msg s =
      let taken = ingest s.reassembler msg in
      remember_if taken.0 (record s { reassembler = taken.1 })

  -- The write, a step of its own.
  abbrev pub write_due : List ℕ → ClipState P Q → ClipState P Q
  write_due text s = record s { pasteboard = pb.write text s.pasteboard; to_write = none }

  -- What `spawn_clipboard_tasks` and `watch_loop` start from.
  abbrev pub clip_start : P → Q → ClipState P Q
  clip_start p q = record {
    pasteboard = p;
    last_cc = pb.change_count p;
    sending = none;
    changes = [];
    echo_guard = no_echo;
    reassembler = Clipboard.new;
    to_write = none;
    tx_out = q;
  }
