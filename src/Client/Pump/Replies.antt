-- ===== src/Client/Pump/Replies.antt =====
-- What a run of frames does on the driven machine: the calls on the sink and the answers to the peer.
use kmwarp.Base.{
  ℕ, ◌+◌, ◌≡◌, refl, sym, ap, ◌∙◌, Bool, Option, none, some, List, [], ◌∷◌, ◌++◌, append_assoc,
  append-nil, Result, ok, err, if◌then◌else◌, Bool-cases, inl, inr, pos,
}
use kmwarp.Platform.{SinkCall, KeyState, MouseButton}
use kmwarp.Platform.ModMask.{from_wire}
use kmwarp.Clipboard.{ReassembleError}
use kmwarp.Wire.{Message}
use kmwarp.Wire.Convert.{
  apply_mouse_to_sink, apply_key_to_sink, byte_to_key_state, byte_to_mouse_button, inject_button_if,
  inject_key_if,
}
use kmwarp.Channel.{Sender, sent, taken}
use kmwarp.Client.{Session}
use kmwarp.Client.Pump.{
  dispatch_one, injector_loop, handle_clipboard_text, write_text, dispatch_control, after_mouse,
  after_key, is_bye, take_entry_inset_px,
}

-- The frames that the loop handles: up to the first failure, and up to a Bye with it.
pub handled : {E : Type 0} → List (Result Message E) → List Message
handled [] = []
handled (err e ∷ frames) = []
handled (ok msg ∷ frames) = let rest = handled frames in msg ∷ (if is_bye msg then [] else rest)

-- The calls that a message is worth; a code outside the dictionaries is worth none.
abbrev pub button_calls : Option MouseButton → Option KeyState → List SinkCall
button_calls (some b) (some s) = SinkCall.inject_mouse_button b s ∷ []
button_calls _ _ = []

abbrev pub key_calls : ℕ → Option KeyState → ℕ → List SinkCall
key_calls hid (some s) mods = SinkCall.inject_key hid s (from_wire mods) ∷ []
key_calls hid none mods = []

abbrev pub calls_of : Message → List SinkCall
calls_of (Message.mouse_move_rel dx dy) = SinkCall.inject_mouse_rel dx dy ∷ []
calls_of (Message.mouse_button b s) = button_calls (byte_to_mouse_button b) (byte_to_key_state s)
calls_of (Message.mouse_wheel dx dy) = SinkCall.inject_mouse_wheel dx dy ∷ []
calls_of (Message.key_event hid s mods) = key_calls hid (byte_to_key_state s) mods
calls_of (Message.take_control y) = SinkCall.warp_cursor_abs (pos take_entry_inset_px) (pos y) ∷ []
calls_of _ = []

abbrev pub pongs_of : Message → List Message
pongs_of (Message.echo_ping ts) = Message.echo_pong ts ∷ []
pongs_of _ = []

pub flat : {A B : Type 0} → (A → List B) → List A → List B
flat f [] = []
flat f (x ∷ xs) = f x ++ flat f xs

inject_button_calls :
    (b : Option MouseButton) (s : Option KeyState) (sink : List SinkCall)
    → inject_button_if b s sink ≡ sink ++ button_calls b s
inject_button_calls none s sink = sym (append-nil sink)
inject_button_calls (some b) none sink = sym (append-nil sink)
inject_button_calls (some b) (some s) sink = refl

inject_key_calls :
    (hid mods : ℕ) (s : Option KeyState) (sink : List SinkCall)
    → inject_key_if s hid mods sink ≡ sink ++ key_calls hid s mods
inject_key_calls hid mods none sink = sym (append-nil sink)
inject_key_calls hid mods (some s) sink = refl

module _ {Q : Type 0} (tx : Sender Q) (hash : List ℕ → List ℕ) (write_ok : List ℕ → Bool)
    (peer_addr : List ℕ) where
  write_text-sink :
      (r : Result (Option (List ℕ)) ReassembleError) (s : Session Q)
      → ((write_text tx hash write_ok peer_addr r s).guard.sink ≡ s.guard.sink)
        × ((write_text tx hash write_ok peer_addr r s).tx_out ≡ s.tx_out)
  write_text-sink (ok (some text)) s = elim (Bool-cases (write_ok text)) [
    | inl good ↦ rw (good, write_text) (refl, refl)
    | inr bad ↦ rw (bad, write_text) (refl, refl)
  ]
  write_text-sink (ok none) s = (refl, refl)
  write_text-sink (err e) s = (refl, refl)

  dispatch_one-sink :
      (msg : Message) (s : Session Q)
      → (dispatch_one tx hash write_ok peer_addr msg s).guard.sink ≡ s.guard.sink ++ calls_of msg
  unfolding dispatch_one after_mouse after_key dispatch_control handle_clipboard_text
      apply_mouse_to_sink apply_key_to_sink
  dispatch_one-sink (Message.key_event hid state m) s =
      inject_key_calls hid m (byte_to_key_state state) s.guard.sink
  dispatch_one-sink (Message.mouse_button b st) s =
      inject_button_calls (byte_to_mouse_button b) (byte_to_key_state st) s.guard.sink
  dispatch_one-sink (Message.mouse_move_rel dx dy) s = refl
  dispatch_one-sink (Message.mouse_wheel dx dy) s = refl
  dispatch_one-sink (Message.take_control y) s = refl
  dispatch_one-sink (Message.clipboard_text f b) s =
      (write_text-sink _ _).0 ∙ sym (append-nil s.guard.sink)
  dispatch_one-sink msg s = sym (append-nil s.guard.sink)

  module _ (free : (msg : Message) (q : Q) → (tx.try_send msg q).0 ≡ sent) where
    dispatch_one-accepted :
        (msg : Message) (s : Session Q)
        → tx.accepted (dispatch_one tx hash write_ok peer_addr msg s).tx_out
          ≡ tx.accepted s.tx_out ++ pongs_of msg
    unfolding dispatch_one after_mouse after_key dispatch_control handle_clipboard_text
        apply_mouse_to_sink apply_key_to_sink
    dispatch_one-accepted (Message.echo_ping ts) s =
        tx.accepts (Message.echo_pong ts) s.tx_out
        ∙ ap (λ r. tx.accepted s.tx_out ++ taken r (Message.echo_pong ts))
            (free (Message.echo_pong ts) s.tx_out)
    dispatch_one-accepted (Message.clipboard_text f b) s =
        ap tx.accepted (write_text-sink _ _).1 ∙ sym (append-nil (tx.accepted s.tx_out))
    dispatch_one-accepted msg s = sym (append-nil (tx.accepted s.tx_out))

    -- While the outbound channel has room: the sink sees the calls of the frames that the loop
    -- handles, in order and nothing else, and the peer is sent one EchoPong for each EchoPing.
    pub injector_loop-handled :
        {E : Type 0} (frames : List (Result Message E)) (s : Session Q)
        → let ended = (injector_loop tx hash write_ok peer_addr frames s).0 in
          (ended.guard.sink ≡ s.guard.sink ++ flat calls_of (handled frames))
          × (tx.accepted ended.tx_out ≡ tx.accepted s.tx_out ++ flat pongs_of (handled frames))
    unfolding injector_loop handled flat
    injector_loop-handled [] s = (sym (append-nil _), sym (append-nil _))
    injector_loop-handled (err e ∷ frames) s = (sym (append-nil _), sym (append-nil _))
    injector_loop-handled (ok msg ∷ frames) s =
        let begun = record s { pulses = s.pulses + 1 } in
        let here = dispatch_one-sink msg begun in
        let here_out = dispatch_one-accepted msg begun in
        let rest =
          injector_loop-handled frames (dispatch_one tx hash write_ok peer_addr msg begun) in
        elim (Bool-cases (is_bye msg)) [
          | inl bye ↦ rw bye (
            here ∙ ap (λ c. s.guard.sink ++ c) (sym (append-nil (calls_of msg))),
            here_out ∙ ap (λ c. tx.accepted s.tx_out ++ c) (sym (append-nil (pongs_of msg))),
          )
          | inr more ↦ rw more (
            rest.0
                ∙ ap (λ c. c ++ flat calls_of (handled frames)) here
                ∙ append_assoc s.guard.sink (calls_of msg) (flat calls_of (handled frames)),
            rest.1
                ∙ ap (λ c. c ++ flat pongs_of (handled frames)) here_out
                ∙ append_assoc (tx.accepted s.tx_out) (pongs_of msg)
                    (flat pongs_of (handled frames)),
          )
        ]
