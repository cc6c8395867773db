-- ===== src/Client/Pump/Release.antt =====
-- No key stays down on the driven machine: what the sink has seen pressed is what the guard tracks,
-- and the guard's drop releases it.
use kmwarp.Base.{
  ℕ, ◌≡◌, refl, sym, ap, ◌∙◌, Bool, false, Option, none, some, List, [], ◌∷◌, ◌++◌, Result, ok, err,
  ◌==◌, if◌then◌else◌, arith, append-nil, Bool-cases, inl, inr, ◌+◌, zero, suc,
}
use kmwarp.Platform.{SinkCall, KeyState, MouseButton, up, down}
use kmwarp.Platform.ModMask.{ModMask, from_wire}
use kmwarp.StuckKeys
use kmwarp.StuckKeys.{HeldKeys, is_held, contains_key, insert, remove, drain, is_empty}
use kmwarp.StuckKeys.Order.{
  IsValid, is_down, insert-IsValid, remove-IsValid, is_held-insert, is_held-remove,
}
use kmwarp.Clipboard.{EchoGuard, ReassembleError}
use kmwarp.Wire.{Message}
use kmwarp.Wire.Convert.{
  apply_mouse_to_sink, apply_key_to_sink, byte_to_key_state, byte_to_mouse_button, inject_button_if,
}
use kmwarp.Channel.{Sender}
use kmwarp.Client.{InjectorGuard, Session}
use kmwarp.Client.Pump.{
  track_key_in_held, dispatch_one, injector_loop, drop_session, drop_guard, new_guard, key_ups,
  handle_clipboard_text, write_text, after_mouse, after_key, is_bye, dispatch_control,
}

-- Whether a key is down after the calls on a sink, `before` telling what held earlier.
abbrev pub key_is_down : ℕ → Bool → List SinkCall → Bool
key_is_down j before [] = before
key_is_down j before (SinkCall.inject_key hid s _ ∷ calls) =
    key_is_down j (if j == hid then is_down s else before) calls
key_is_down j before (_ ∷ calls) = key_is_down j before calls

key_is_down-append :
    (j : ℕ) (before : Bool) (calls more : List SinkCall)
    → key_is_down j before (calls ++ more) ≡ key_is_down j (key_is_down j before calls) more
key_is_down-append j before [] more = refl
key_is_down-append j before (SinkCall.inject_key hid s m ∷ calls) more =
    key_is_down-append j (if j == hid then is_down s else before) calls more
key_is_down-append j before (SinkCall.inject_mouse_rel a b ∷ calls) more =
    key_is_down-append j before calls more
key_is_down-append j before (SinkCall.inject_mouse_button a b ∷ calls) more =
    key_is_down-append j before calls more
key_is_down-append j before (SinkCall.inject_mouse_wheel a b ∷ calls) more =
    key_is_down-append j before calls more
key_is_down-append j before (SinkCall.warp_cursor_abs a b ∷ calls) more =
    key_is_down-append j before calls more
key_is_down-append j before (SinkCall.hide_cursor ∷ calls) more =
    key_is_down-append j before calls more
key_is_down-append j before (SinkCall.show_cursor ∷ calls) more =
    key_is_down-append j before calls more

-- The tracker is valid and says of each key what the sink has seen.
pub Tracks : HeldKeys → List SinkCall → Type 0
Tracks held sink = IsValid held × ((j : ℕ) → is_held held j ≡ key_is_down j false sink)

pub Tracks-nil : Tracks StuckKeys.new []
unfolding Tracks is_held contains_key
Tracks-nil = (tt, λ j. refl)

-- A call that is not about keys changes nothing.
Tracks-append :
    (held : HeldKeys) (sink more : List SinkCall)
    → ((j : ℕ) (before : Bool) → key_is_down j before more ≡ before)
    → Tracks held sink
    → Tracks held (sink ++ more)
unfolding Tracks
Tracks-append held sink more quiet (v, same) = (
  v,
  λ j. same j ∙ sym (key_is_down-append j false sink more ∙ quiet j (key_is_down j false sink)),
)

-- The releases of a list of keys: each key of it is up afterwards, the others are as before.
key_is_down-key_ups :
    (j : ℕ) (before : Bool) (hids : List ℕ)
    → key_is_down j before (key_ups hids) ≡ (if contains_key j hids then false else before)
unfolding contains_key
key_is_down-key_ups j before [] = refl
key_is_down-key_ups j before (hid ∷ hids) =
    let ih = key_is_down-key_ups j (if j == hid then false else before) hids in ih ∙ ground arith

drop_keys :
    (g : InjectorGuard) (keys : List ℕ)
    → (drop_guard (record g { held = record { keys = keys } })).sink ≡ g.sink ++ key_ups keys
unfolding drop_guard is_empty drain
drop_keys g [] = sym (append-nil g.sink)
drop_keys g (k ∷ ks) = refl

pub drop_guard-Tracks :
    (g : InjectorGuard) (j : ℕ)
    → Tracks g.held g.sink
    → key_is_down j false (drop_guard g).sink ≡ false
unfolding Tracks is_held
drop_guard-Tracks g j (v, same) =
    let same_j = same j in
    ap (key_is_down j false) (drop_keys g g.held.keys)
    ∙ key_is_down-append j false g.sink (key_ups g.held.keys)
    ∙ key_is_down-key_ups j (key_is_down j false g.sink) g.held.keys
    ∙ ground arith

press-Tracks :
    (hid : ℕ) (mods : ModMask) (held : HeldKeys) (sink : List SinkCall)
    → Tracks held sink
    → Tracks (insert held hid) (sink ++ (SinkCall.inject_key hid down mods ∷ []))
unfolding Tracks
press-Tracks hid mods held sink (v, same) = (
  insert-IsValid held hid v,
  λ j. is_held-insert held hid j ∙ rw (same j) (sym (key_is_down-append j false sink _)),
)

release-Tracks :
    (hid : ℕ) (mods : ModMask) (held : HeldKeys) (sink : List SinkCall)
    → Tracks held sink
    → Tracks (remove held hid) (sink ++ (SinkCall.inject_key hid up mods ∷ []))
unfolding Tracks
release-Tracks hid mods held sink (v, same) = (
  remove-IsValid held hid v,
  λ j. is_held-remove held hid j v ∙ rw (same j) (sym (key_is_down-append j false sink _)),
)

track_key-Tracks :
    (hid state m : ℕ) (held : HeldKeys) (sink : List SinkCall)
    → Tracks held sink
    → Tracks
        (track_key_in_held (Message.key_event hid state m) held)
        (apply_key_to_sink (Message.key_event hid state m) sink).1
unfolding track_key_in_held apply_key_to_sink byte_to_key_state
track_key-Tracks hid zero m held sink t = release-Tracks hid (from_wire m) held sink t
track_key-Tracks hid (suc zero) m held sink t = press-Tracks hid (from_wire m) held sink t
track_key-Tracks hid (suc (suc n)) m held sink t =
    let not_up : (suc (suc n) == 0) ≡ false = ground arith in
    let not_down : (suc (suc n) == 1) ≡ false = ground arith in
    rw (not_down, not_up, byte_to_key_state) t

inject_button-Tracks :
    (b : Option MouseButton) (st : Option KeyState) (held : HeldKeys) (sink : List SinkCall)
    → Tracks held sink
    → Tracks held (inject_button_if b st sink)
inject_button-Tracks none st held sink t = t
inject_button-Tracks (some btn) none held sink t = t
inject_button-Tracks (some btn) (some s) held sink t =
    Tracks-append held sink _ (λ j before. refl) t

mouse_button-Tracks :
    (b st : ℕ) (held : HeldKeys) (sink : List SinkCall)
    → Tracks held sink
    → Tracks held (apply_mouse_to_sink (Message.mouse_button b st) sink).1
unfolding apply_mouse_to_sink
mouse_button-Tracks b st held sink t =
    inject_button-Tracks (byte_to_mouse_button b) (byte_to_key_state st) held sink t

module _ {Q : Type 0} (tx : Sender Q) (hash : List ℕ → List ℕ) (write_ok : List ℕ → Bool)
    (peer_addr : List ℕ) where
  write_text-Tracks :
      (r : Result (Option (List ℕ)) ReassembleError) (s : Session Q)
      → Tracks s.guard.held s.guard.sink
      → Tracks
          (write_text tx hash write_ok peer_addr r s).guard.held
          (write_text tx hash write_ok peer_addr r s).guard.sink
  write_text-Tracks (ok (some text)) s t = elim (Bool-cases (write_ok text)) [
    | inl good ↦ rw (good, write_text) t
    | inr bad ↦ rw (bad, write_text) t
  ]
  write_text-Tracks (ok none) s t = t
  write_text-Tracks (err e) s t = t

  dispatch_one-Tracks :
      (msg : Message) (s : Session Q)
      → Tracks s.guard.held s.guard.sink
      → Tracks
          (dispatch_one tx hash write_ok peer_addr msg s).guard.held
          (dispatch_one tx hash write_ok peer_addr msg s).guard.sink
  unfolding dispatch_one after_mouse after_key dispatch_control handle_clipboard_text
  dispatch_one-Tracks (Message.key_event hid state m) s t =
      track_key-Tracks hid state m s.guard.held s.guard.sink t
  dispatch_one-Tracks (Message.clipboard_text f b) s t = write_text-Tracks _ _ t
  dispatch_one-Tracks (Message.mouse_button b st) s t =
      mouse_button-Tracks b st s.guard.held s.guard.sink t
  dispatch_one-Tracks (Message.mouse_move_rel dx dy) s t =
      Tracks-append s.guard.held s.guard.sink _ (λ j before. refl) t
  dispatch_one-Tracks (Message.take_control y) s t =
      Tracks-append s.guard.held s.guard.sink _ (λ j before. refl) t
  dispatch_one-Tracks (Message.mouse_wheel dx dy) s t =
      Tracks-append s.guard.held s.guard.sink _ (λ j before. refl) t
  dispatch_one-Tracks msg s t = t

  pub injector_loop-Tracks :
      {E : Type 0} (frames : List (Result Message E)) (s : Session Q)
      → Tracks s.guard.held s.guard.sink
      → Tracks
          (injector_loop tx hash write_ok peer_addr frames s).0.guard.held
          (injector_loop tx hash write_ok peer_addr frames s).0.guard.sink
  unfolding injector_loop
  injector_loop-Tracks [] s t = t
  injector_loop-Tracks (err e ∷ frames) s t = t
  injector_loop-Tracks (ok msg ∷ frames) s t =
      let next = dispatch_one-Tracks msg (record s { pulses = s.pulses + 1 }) t in
      let rest = injector_loop-Tracks frames _ next in
      elim (Bool-cases (is_bye msg)) [ inl bye ↦ rw bye next | inr more ↦ rw more rest ]

  -- Whatever frames arrive, and whether the loop ends by a Bye, by an error or is aborted: while it
  -- runs, the guard holds exactly the keys that the sink has seen pressed and not released, and once
  -- the guard is dropped, the sink has seen every key released.
  pub injector_loop-drop_session :
      {E : Type 0} (frames : List (Result Message E)) (s : Session Q) (echo_guard : EchoGuard)
      (j : ℕ)
      → let ended =
          (injector_loop tx hash write_ok peer_addr frames
            (record s { guard = new_guard [] echo_guard })).0 in
        (is_held ended.guard.held j ≡ key_is_down j false ended.guard.sink)
        × (key_is_down j false (drop_session tx hash write_ok peer_addr ended).guard.sink ≡ false)
  unfolding drop_session Tracks is_held contains_key
  injector_loop-drop_session frames s echo_guard j =
      let t =
        injector_loop-Tracks frames (record s { guard = new_guard [] echo_guard })
          (tt, λ i. refl) in
      (t.1 j, drop_guard-Tracks _ j t)
