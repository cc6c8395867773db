-- ===== src/Server/Peer/Release.antt =====
-- No key stays down at the peer when a session ends, whatever its tasks do and whichever exits first.
use kmwarp.Base.{◌≡◌, false, []}
use kmwarp.Edge.Protocol.{is_remote}
use kmwarp.Channel.{Sender}
use kmwarp.Server.Brain.Keys.{Keeps}
use kmwarp.Server.Peer.{Peer}

-- The brain is settled, and its tracker says what the messages leave down.
record Sound {P Q : Type 0} (tx : Sender Q) (p : Peer P Q) : Type 0 where
  flag : p.brain.swallow ≡ is_remote p.brain.sm.state
  empty : is_remote p.brain.sm.state ≡ false → p.brain.held.keys ≡ []
  keeps : Keeps p.brain.held (tx.accepted p.brain.tx_out)
