-- ===== src/Channel.antt =====
-- The sending half of a bounded `tokio::sync::mpsc` channel, which both pumps write their outbound
-- messages to: an interface, since the channel is not part of the repository.
use kmwarp.Base.{◌≡◌, List, [], ◌∷◌, ◌++◌}
use kmwarp.Wire.{Message}

-- `Ok(())`, `TrySendError::Full` and `TrySendError::Closed`
pub data SendResult : Type 0 where
  sent full closed : SendResult

-- What an attempt adds to the messages that the channel has accepted.
abbrev pub taken : SendResult → Message → List Message
taken sent msg = msg ∷ []
taken _ msg = []

-- A channel in a state `Q`: `accepted` are the messages that went in, oldest first.
pub record Sender (Q : Type 0) : Type 0 where
  pub try_send : Message → Q → SendResult × Q
  pub accepted : Q → List Message
  pub accepts :
      (msg : Message) (q : Q)
      → accepted (try_send msg q).1 ≡ accepted q ++ taken (try_send msg q).0 msg
