-- ===== src/Client.antt =====
-- crates/client/src: the session of the machine that is driven. The pump that decodes frames into
-- calls on the sink, and the watcher that hands control back at the left edge.
pub mod Pump
pub mod Watch
pub mod ClipboardOut
pub mod Tasks
pub mod WinClipboard
use kmwarp.Base.{ℕ, Bool, true, false, Option, none, some, List, [], Result}
use kmwarp.Platform.{SinkCall}
use kmwarp.StuckKeys.{HeldKeys}
use kmwarp.Clipboard.{Reassembler, EchoGuard}

-- `ClientStatus` of crates/client/src/app.rs; an address is the list of the bytes of its text.
pub data ClientStatus : Type 0 where
  idle discovering : ClientStatus
  pairing : (code : List ℕ) → ClientStatus
  connecting : (addr : List ℕ) → ClientStatus
  connected : (peer : List ℕ) → ClientStatus
  driven : (peer : List ℕ) → ClientStatus

-- `if let Some(tx) = status_tx { tx.send(…) }`: a watch channel holds its last value, `none` being a
-- session without one.
abbrev pub publish : ClientStatus → Option ClientStatus → Option ClientStatus
publish status (some _) = some status
publish status none = none

-- The sink is the list of the calls on it.
pub record InjectorGuard : Type 0 where
  pub held : HeldKeys
  pub reassembler : Reassembler
  pub echo_guard : EchoGuard
  pub sink : List SinkCall

-- What the tasks of a session share: the outbound channel, `active`, the status, the pulses of the
-- deadline's `Notify`, and the texts that were written to the system's clipboard, oldest first.
pub record Session (Q : Type 0) : Type 0 where
  pub guard : InjectorGuard
  pub tx_out : Q
  pub active : Bool
  pub status : Option ClientStatus
  pub pulses : ℕ
  pub clipboard : List (List ℕ)
