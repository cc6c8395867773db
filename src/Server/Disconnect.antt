-- ===== src/Server/Disconnect.antt =====
-- crates/server/src/app.rs: `drain_held_on_disconnect`, after the first task of a session has ended.
use kmwarp.Base.{
  ℕ, ◌≡◌, refl, ◌∙◌, Bool, false, List, [], ℤ, ◌∷◌, ◌++◌, ◌==◌, if◌then◌else◌, arith, Option,
}
use kmwarp.StuckKeys.{HeldKeys, is_held, contains_key, drain}
use kmwarp.Wire.{Message}
use kmwarp.Modmap.{ModRemap}
use kmwarp.Edge.{EdgeConfig}
use kmwarp.Edge.Protocol.{Input}
use kmwarp.Channel.{Sender, sent}
use kmwarp.Server.{ServerStatus}
use kmwarp.Server.Brain.{edge_brain_task}
use kmwarp.Server.Brain.Keys.{wire_is_down, state_after}
use kmwarp.Server.Brain.Release.{brain_start, edge_brain_task-is_held}

-- The outcome of one `send(…)` under its timeout.
pub data SendOutcome : Type 0 where
  queued closed timed_out : SendOutcome

abbrev pub release_of : ℕ → Message
release_of hid = Message.key_event hid 0 0

-- The sends of the drained keys, given their outcomes in order: the messages that are queued. The first
-- failure ends the drain; outcomes that are not given are successes.
unfoldable pub send_releases : List ℕ → List SendOutcome → List Message
send_releases [] outcomes = []
send_releases (hid ∷ hids) [] = release_of hid ∷ send_releases hids []
send_releases (hid ∷ hids) (queued ∷ outcomes) = release_of hid ∷ send_releases hids outcomes
send_releases (hid ∷ hids) (closed ∷ outcomes) = []
send_releases (hid ∷ hids) (timed_out ∷ outcomes) = []

-- The tracker and the messages that were accepted, before and after.
unfoldable pub drain_held_on_disconnect :
    HeldKeys → List Message → List SendOutcome → HeldKeys × List Message
unfolding drain send_releases
drain_held_on_disconnect held accepted outcomes =
    ((drain held).1, accepted ++ send_releases (drain held).0 outcomes)

wire_is_down-releases :
    (j : ℕ) (hids : List ℕ) (before : Bool)
    → wire_is_down j before (send_releases hids [])
      ≡ (if contains_key j hids then false else before)
unfolding send_releases contains_key
wire_is_down-releases j [] before = refl
wire_is_down-releases j (hid ∷ hids) before =
    let ih = wire_is_down-releases j hids (if j == hid then false else before) in ih ∙ ground arith

pub wire_is_down-concat :
    (j : ℕ) (before : Bool) (msgs more : List Message)
    → wire_is_down j before (msgs ++ more) ≡ wire_is_down j (wire_is_down j before msgs) more
wire_is_down-concat j before [] more = refl
wire_is_down-concat j before (Message.key_event hid state m ∷ msgs) more =
    wire_is_down-concat j (if j == hid then state_after state before else before) msgs more
wire_is_down-concat j before (m ∷ msgs) more = wire_is_down-concat j before msgs more

pub drain-quiet :
    (j : ℕ) (held : HeldKeys) (accepted : List Message)
    → is_held held j ≡ wire_is_down j false accepted
    → wire_is_down j false (drain_held_on_disconnect held accepted []).1 ≡ false
unfolding drain_held_on_disconnect is_held
drain-quiet j held accepted same =
    wire_is_down-concat j false accepted (send_releases held.keys [])
    ∙ wire_is_down-releases j held.keys (wire_is_down j false accepted)
    ∙ ground arith

module _ {Q : Type 0} (tx : Sender Q) (mod_remap : ModRemap) (remote : List ℕ)
    (display_right_at : ℤ → ℤ → Option ℤ) (global_right : ℤ)
    (free : (msg : Message) (q : Q) → (tx.try_send msg q).0 ≡ sent) (cfg : EdgeConfig) (q : Q)
    (status : Option ServerStatus)
    (quiet : (j : ℕ) → wire_is_down j false (tx.accepted q) ≡ false) where
  -- On an outbound channel with room, when the session ends after any inputs of a new brain, in either
  -- state, and the drain's own sends succeed: the messages sent leave no key down at the peer, if none
  -- was before.
  drain_held_on_disconnect-edge_brain_task :
      (inputs : List (Input × ℕ)) (j : ℕ)
      → let ended =
          edge_brain_task tx mod_remap remote display_right_at global_right inputs
            (brain_start tx mod_remap remote display_right_at global_right cfg q status) in
        wire_is_down j false (drain_held_on_disconnect ended.held (tx.accepted ended.tx_out) []).1
        ≡ false
  drain_held_on_disconnect-edge_brain_task inputs j =
      drain-quiet j _ _
        (edge_brain_task-is_held tx mod_remap remote display_right_at global_right free cfg q status
          quiet inputs j).1
