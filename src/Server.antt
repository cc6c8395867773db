-- ===== src/Server.antt =====
-- crates/server/src/app.rs: the task that owns the edge state machine on the machine with the
-- keyboard, and what it sends.
pub mod Brain
pub mod Disconnect
pub mod Tasks
pub mod ClipSync
pub mod Peer
use kmwarp.Base.{ℕ, Bool, Option, some, none, List, ℤ}
use kmwarp.Platform.{SinkCall}
use kmwarp.StuckKeys.{HeldKeys}
use kmwarp.Edge.{StateMachine}

-- An address is the list of the bytes of its text.
pub data ServerStatus : Type 0 where
  idle : ServerStatus
  listening : (addr : List ℕ) → ServerStatus
  pairing : (code : List ℕ) → ServerStatus
  connected : (peer : List ℕ) → ServerStatus
  active : (peer : List ℕ) → ServerStatus

-- A watch channel holds its last value, `none` being a server without one.
abbrev pub publish_status : Option ServerStatus → ServerStatus → Option ServerStatus
publish_status (some _) status = some status
publish_status none status = none

-- What the brain task works on: the machine, the swallow flag, the keys that the peer has down, the
-- outbound channel, the calls on the local sink, the status, and the right edge of the display that
-- the cursor left from.
pub record BrainState (Q : Type 0) : Type 0 where
  pub sm : StateMachine
  pub swallow : Bool
  pub held : HeldKeys
  pub tx_out : Q
  pub sink : List SinkCall
  pub status : Option ServerStatus
  pub home_display_right : ℤ
