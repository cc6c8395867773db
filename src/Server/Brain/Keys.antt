-- ===== src/Server/Brain/Keys.antt =====
-- The keys that the brain leaves down at the peer.
use kmwarp.Base.{
  ℕ, zero, suc, ◌≡◌, refl, sym, ap, ◌∙◌, Bool, true, false, not, Option, List, [], ◌∷◌, ◌++◌, ◌==◌,
  if◌then◌else◌, arith, ℤ,
}
use kmwarp.StuckKeys.{HeldKeys, is_held, contains_key}
use kmwarp.StuckKeys.Order.{IsValid, insert-IsValid, remove-IsValid, is_held-insert, is_held-remove}
use kmwarp.Platform.{SourceEvent}
use kmwarp.Modmap.{ModRemap}
use kmwarp.Wire.{Message}
use kmwarp.Edge.{
  Action, StateMachine, on_local_event, on_wire_message, send_take_control, send_release_control,
  start_swallow, stop_swallow, send_message,
}
use kmwarp.Edge.Protocol.{Input, local, wire, step, is_remote}
use kmwarp.Channel.{Sender, sent, taken}
use kmwarp.Server.{BrainState}
use kmwarp.Server.Brain.{
  remap_key_message, track_held, enqueue, enqueue_ups, drain_held_to_peer, execute_action,
  rewrite_action, execute_all,
}

-- Whether a key is down at the peer after the messages, `before` telling what held earlier.
abbrev pub state_after : ℕ → Bool → Bool
state_after state before = if state == 1 then true else if state == 0 then false else before

abbrev pub wire_is_down : ℕ → Bool → List Message → Bool
wire_is_down j before [] = before
wire_is_down j before (Message.key_event hid state _ ∷ msgs) =
    wire_is_down j (if j == hid then state_after state before else before) msgs
wire_is_down j before (_ ∷ msgs) = wire_is_down j before msgs

wire_is_down-append :
    (j : ℕ) (before : Bool) (msgs : List Message) (msg : Message)
    → wire_is_down j before (msgs ++ (msg ∷ []))
      ≡ wire_is_down j (wire_is_down j before msgs) (msg ∷ [])
wire_is_down-append j before [] msg = refl
wire_is_down-append j before (Message.key_event hid state m ∷ msgs) msg =
    wire_is_down-append j (if j == hid then state_after state before else before) msgs msg
wire_is_down-append j before (m ∷ msgs) msg = wire_is_down-append j before msgs msg

-- What a list of actions makes of the swallow flag, and of whether nothing is held.
abbrev pub swallow_after : List Action → Bool → Bool
swallow_after [] s = s
swallow_after (start_swallow ∷ acts) s = swallow_after acts true
swallow_after (stop_swallow ∷ acts) s = swallow_after acts false
swallow_after (_ ∷ acts) s = swallow_after acts s

abbrev pub clean_after : List Action → Bool → Bool
clean_after [] c = c
clean_after (start_swallow ∷ acts) c = clean_after acts true
clean_after (stop_swallow ∷ acts) c = clean_after acts true
clean_after (send_message m ∷ acts) c = clean_after acts false
clean_after (_ ∷ acts) c = clean_after acts c

pub step-swallow :
    (sm : StateMachine) (i : Input) (now : ℕ)
    → swallow_after (step sm i now).1 (is_remote sm.state) ≡ is_remote (step sm i now).0.state
unfolding step on_local_event on_wire_message
step-swallow sm (local (SourceEvent.cursor_at x y)) now = ground arith
step-swallow sm (local (SourceEvent.key h s m)) now = ground arith
step-swallow sm (local ev) now = ground arith
step-swallow sm (wire (Message.release_control y)) now = ground arith
step-swallow sm (wire m) now = ground arith

pub step-clean :
    (sm : StateMachine) (i : Input) (now : ℕ)
    → is_remote (step sm i now).0.state ≡ false
    → clean_after (step sm i now).1 (not (is_remote sm.state)) ≡ true
unfolding step on_local_event on_wire_message
step-clean sm (local (SourceEvent.cursor_at x y)) now h = ground arith
step-clean sm (local (SourceEvent.key k s m)) now h = ground arith
step-clean sm (local ev) now h = ground arith
step-clean sm (wire (Message.release_control y)) now h = ground arith
step-clean sm (wire m) now h = ground arith

-- The tracker is valid and says of each key what the messages leave at the peer.
unfoldable pub Keeps : HeldKeys → List Message → Type 0
Keeps held msgs = IsValid held × ((j : ℕ) → is_held held j ≡ wire_is_down j false msgs)

track_held-is_held :
    (msg : Message) (held : HeldKeys)
    → IsValid held
    → IsValid (track_held msg held)
      × ((j : ℕ) → is_held (track_held msg held) j ≡ wire_is_down j (is_held held j) (msg ∷ []))
unfolding track_held
track_held-is_held (Message.key_event hid zero m) held v =
    (remove-IsValid held hid v, λ j. is_held-remove held hid j v)
track_held-is_held (Message.key_event hid (suc zero) m) held v =
    (insert-IsValid held hid v, λ j. is_held-insert held hid j)
track_held-is_held (Message.key_event hid (suc (suc n)) m) held v =
    let not_up : (suc (suc n) == 0) ≡ false = ground arith in
    let not_down : (suc (suc n) == 1) ≡ false = ground arith in
    rw (not_down, not_up) (v, λ j. ground arith)
track_held-is_held msg held v = (v, λ j. refl)

track_held-Keeps :
    (msg : Message) (held : HeldKeys) (msgs : List Message)
    → Keeps held msgs
    → Keeps (track_held msg held) (msgs ++ (msg ∷ []))
unfolding Keeps
track_held-Keeps msg held msgs (v, same) =
    let (v', moved) = track_held-is_held msg held v in
    (
      v',
      λ j.
          moved j
          ∙ ap (λ before. wire_is_down j before (msg ∷ [])) (same j)
          ∙ sym (wire_is_down-append j false msgs msg),
    )

-- A message that is not about keys.
abbrev is_key : Message → Bool
is_key (Message.key_event hid state m) = true
is_key _ = false

track_held-other :
    (msg : Message) (held : HeldKeys) → is_key msg ≡ false → track_held msg held ≡ held
unfolding track_held
track_held-other (Message.key_event hid state m) held h = absurd (ground arith)
track_held-other msg held h = refl

module _ {Q : Type 0} (tx : Sender Q) (mod_remap : ModRemap) (remote : List ℕ)
    (display_right_at : ℤ → ℤ → Option ℤ) (global_right : ℤ)
    (free : (msg : Message) (q : Q) → (tx.try_send msg q).0 ≡ sent) where
  accepted-enqueue :
      (msg : Message) (q : Q)
      → tx.accepted (enqueue tx mod_remap remote display_right_at global_right msg q)
        ≡ tx.accepted q ++ (msg ∷ [])
  accepted-enqueue msg q = tx.accepts msg q ∙ ap (λ r. tx.accepted q ++ taken r msg) (free msg q)

  wire_is_down-enqueue_ups :
      (j : ℕ) (hids : List ℕ) (q : Q)
      → wire_is_down j false
          (tx.accepted (enqueue_ups tx mod_remap remote display_right_at global_right hids q))
        ≡ (if contains_key j hids then false else wire_is_down j false (tx.accepted q))
  unfolding enqueue_ups contains_key
  wire_is_down-enqueue_ups j [] q = refl
  wire_is_down-enqueue_ups j (hid ∷ hids) q =
      let up = Message.key_event hid 0 0 in
      wire_is_down-enqueue_ups j hids
        (enqueue tx mod_remap remote display_right_at global_right up q)
      ∙ ap (λ d. if contains_key j hids then false else d)
          (ap (wire_is_down j false) (accepted-enqueue up q)
            ∙ wire_is_down-append j false (tx.accepted q) up)
      ∙ ground arith

  drain-Keeps :
      (b : BrainState Q)
      → Keeps b.held (tx.accepted b.tx_out)
      → Keeps (drain_held_to_peer tx mod_remap remote display_right_at global_right b).held (
          tx.accepted
            (drain_held_to_peer tx mod_remap remote display_right_at global_right b).tx_out)
  unfolding Keeps drain_held_to_peer is_held contains_key
  drain-Keeps b (v, same) = (
    tt,
    λ j.
        let same_j = same j in sym (wire_is_down-enqueue_ups j b.held.keys b.tx_out ∙ ground arith),
  )

  send-Keeps :
      (msg : Message) (held : HeldKeys) (q : Q)
      → Keeps held (tx.accepted q)
      → Keeps
          (track_held msg held)
          (tx.accepted (enqueue tx mod_remap remote display_right_at global_right msg q))
  send-Keeps msg held q k =
      rw (accepted-enqueue msg q) (track_held-Keeps msg held (tx.accepted q) k)

  execute_action-Keeps :
      (action : Action) (b : BrainState Q)
      → Keeps b.held (tx.accepted b.tx_out)
      → Keeps (execute_action tx mod_remap remote display_right_at global_right action b).held (
          tx.accepted
            (execute_action tx mod_remap remote display_right_at global_right action b).tx_out)
  unfolding execute_action track_held
  execute_action-Keeps (send_take_control y) b k =
      send-Keeps (Message.take_control y) b.held b.tx_out k
  execute_action-Keeps (send_release_control y) b k =
      send-Keeps (Message.release_control y) b.held b.tx_out k
  execute_action-Keeps (send_message m) b k =
      send-Keeps (remap_key_message m mod_remap) b.held b.tx_out k
  execute_action-Keeps start_swallow b k = drain-Keeps b k
  execute_action-Keeps stop_swallow b k = drain-Keeps b k
  execute_action-Keeps action b k = k

  pub execute_all-Keeps :
      (actions : List Action) (b : BrainState Q)
      → Keeps b.held (tx.accepted b.tx_out)
      → Keeps (execute_all tx mod_remap remote display_right_at global_right actions b).held (
          tx.accepted
            (execute_all tx mod_remap remote display_right_at global_right actions b).tx_out)
  unfolding execute_all
  execute_all-Keeps [] b k = k
  execute_all-Keeps (a ∷ actions) b k =
      let action =
        rewrite_action tx mod_remap remote display_right_at global_right a b.home_display_right in
      execute_all-Keeps actions
        (execute_action tx mod_remap remote display_right_at global_right action b)
        (execute_action-Keeps action b k)
