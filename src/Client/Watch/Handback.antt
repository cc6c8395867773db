-- ===== src/Client/Watch/Handback.antt =====
-- Taking control and handing it back.
use kmwarp.Base.{
  ℕ, ◌≡◌, refl, Bool, true, false, Option, none, some, List, [], ◌∷◌, ◌++◌, ℤ, pos, leb_ℤ,
  if◌then◌else◌, All, ap, ◌∙◌, Bool-cases, inl, inr,
}
use kmwarp.Edge.{clamp_to_u16}
use kmwarp.Wire.{Message}
use kmwarp.Channel.{Sender, SendResult, sent, full, closed, taken}
use kmwarp.Client.{Session}
use kmwarp.Client.Pump.{dispatch_one, dispatch_control, after_mouse, after_key, take_entry_inset_px}
use kmwarp.Client.Watch.{Watcher, tick, cursor_leave_watcher, on_position, after_send}

module _ {Q : Type 0} (tx : Sender Q) (safe_warp_x : ℤ) (peer_addr : List ℕ) where
  tick_idle :
      (p : Option (ℤ × ℤ)) (w : Watcher Q)
      → w.session.active ≡ false
      → tick tx safe_warp_x peer_addr p w ≡ (w, true)
  unfolding tick
  tick_idle none w idle = refl
  tick_idle (some (x, y)) w idle =
      ap (λ b. if b then on_position tx safe_warp_x peer_addr x y w else (w, true)) idle

  on_position_inside :
      (x y : ℤ) (w : Watcher Q)
      → leb_ℤ x (pos 0) ≡ false
      → on_position tx safe_warp_x peer_addr x y w ≡ (w, true)
  unfolding on_position
  on_position_inside x y w h =
      ap
        (λ b.
          if b
          then after_send tx safe_warp_x peer_addr
              (tx.try_send (Message.release_control (clamp_to_u16 y)) w.session.tx_out) y w
          else (w, true))
        h

  tick_inside :
      (x y : ℤ) (w : Watcher Q)
      → leb_ℤ x (pos 0) ≡ false
      → tick tx safe_warp_x peer_addr (some (x, y)) w ≡ (w, true)
  tick_inside x y w h = elim (Bool-cases w.session.active) [
    | inl on ↦
        unfold tick in
        ap (λ b. if b then on_position tx safe_warp_x peer_addr x y w else (w, true)) on
        ∙ on_position_inside x y w h
    | inr off ↦ tick_idle (some (x, y)) w off
  ]

  tick_left :
      (x y : ℤ) (w : Watcher Q)
      → w.session.active ≡ true
      → leb_ℤ x (pos 0) ≡ true
      → tick tx safe_warp_x peer_addr (some (x, y)) w
        ≡ after_send tx safe_warp_x peer_addr
            (tx.try_send (Message.release_control (clamp_to_u16 y)) w.session.tx_out)
            y
            w
  unfolding tick on_position
  tick_left x y w active left =
      ap (λ b. if b then on_position tx safe_warp_x peer_addr x y w else (w, true)) active
      ∙ ap
          (λ b.
            if b
            then after_send tx safe_warp_x peer_addr
                (tx.try_send (Message.release_control (clamp_to_u16 y)) w.session.tx_out) y w
            else (w, true))
          left

  watcher-quiet :
      (p : Option (ℤ × ℤ)) (ps : List (Option (ℤ × ℤ))) (w : Watcher Q)
      → tick tx safe_warp_x peer_addr p w ≡ (w, true)
      → cursor_leave_watcher tx safe_warp_x peer_addr (p ∷ ps) w
        ≡ cursor_leave_watcher tx safe_warp_x peer_addr ps w
  unfolding cursor_leave_watcher
  watcher-quiet p ps w h =
      ap (λ next. if next.1 then cursor_leave_watcher tx safe_warp_x peer_addr ps next.0 else next)
        h

  -- An inactive watcher does nothing, wherever the cursor is.
  cursor_leave_watcher_idle :
      (ps : List (Option (ℤ × ℤ))) (w : Watcher Q)
      → w.session.active ≡ false
      → cursor_leave_watcher tx safe_warp_x peer_addr ps w ≡ (w, true)
  cursor_leave_watcher_idle [] w idle = unfold cursor_leave_watcher in refl
  cursor_leave_watcher_idle (p ∷ ps) w idle =
      watcher-quiet p ps w (tick_idle p w idle) ∙ cursor_leave_watcher_idle ps w idle

  -- Whatever became of the attempt to send, the ticks after it send nothing.
  send_once :
      (r : SendResult × Q) (y : ℤ) (ps : List (Option (ℤ × ℤ))) (w : Watcher Q)
      → (let next = after_send tx safe_warp_x peer_addr r y w in
          if next.1
          then cursor_leave_watcher tx safe_warp_x peer_addr ps next.0
          else next).0.session.tx_out
        ≡ r.1
  send_once (sent, q) y ps w = ap (λ e. e.0.session.tx_out) (cursor_leave_watcher_idle ps _ refl)
  send_once (full, q) y ps w = ap (λ e. e.0.session.tx_out) (cursor_leave_watcher_idle ps _ refl)
  send_once (closed, q) y ps w = refl

  leave_once :
      (x y : ℤ) (ps : List (Option (ℤ × ℤ))) (w : Watcher Q)
      → w.session.active ≡ true
      → leb_ℤ x (pos 0) ≡ true
      → (cursor_leave_watcher tx safe_warp_x peer_addr (some (x, y) ∷ ps) w).0.session.tx_out
        ≡ (tx.try_send (Message.release_control (clamp_to_u16 y)) w.session.tx_out).1
  unfolding cursor_leave_watcher
  leave_once x y ps w active left =
      ap
        (λ next.
          (if next.1
            then cursor_leave_watcher tx safe_warp_x peer_addr ps next.0
            else next).0.session.tx_out)
        (tick_left x y w active left)
      ∙ send_once (tx.try_send (Message.release_control (clamp_to_u16 y)) w.session.tx_out) y ps w

  -- Positions inside the screen, and failures to read one.
  abbrev pub IsInside : Option (ℤ × ℤ) → Type 0
  IsInside none = Unit {0}
  IsInside (some (x, y)) = leb_ℤ x (pos 0) ≡ false

  inside_quiet :
      (inside more : List (Option (ℤ × ℤ))) (w : Watcher Q)
      → All IsInside inside
      → cursor_leave_watcher tx safe_warp_x peer_addr (inside ++ more) w
        ≡ cursor_leave_watcher tx safe_warp_x peer_addr more w
  inside_quiet [] more w a = refl
  inside_quiet (none ∷ ps) more w (_, a) =
      watcher-quiet none (ps ++ more) w (unfold tick in refl) ∙ inside_quiet ps more w a
  inside_quiet (some (x, y) ∷ ps) more w (h, a) =
      watcher-quiet (some (x, y)) (ps ++ more) w (tick_inside x y w h) ∙ inside_quiet ps more w a

  module _ (hash : List ℕ → List ℕ) (write_ok : List ℕ → Bool) where
    -- One visit: after a TakeControl the watcher lets the cursor be where the injector puts it and at
    -- all positions inside; at the first position on the left edge it makes one attempt to send the
    -- ReleaseControl with that row, cut to 16 bits; and then none, wherever the cursor is.
    pub cursor_leave_watcher-take_control :
        (entry_y : ℕ) (s : Session Q) (parked : List (ℤ × ℤ)) (inside later : List (Option (ℤ × ℤ)))
        (x y : ℤ)
        → All IsInside inside
        → leb_ℤ x (pos 0) ≡ true
        → let begun : Watcher Q = record {
          session = dispatch_one tx hash write_ok peer_addr (Message.take_control entry_y) s;
          parked = parked;
        } in
          let positions =
            (some (pos take_entry_inset_px, pos entry_y) ∷ inside) ++ (some (x, y) ∷ later) in
          let release = Message.release_control (clamp_to_u16 y) in
          tx.accepted
            (cursor_leave_watcher tx safe_warp_x peer_addr positions begun).0.session.tx_out
          ≡ tx.accepted s.tx_out ++ taken (tx.try_send release s.tx_out).0 release
    unfolding dispatch_one after_mouse after_key dispatch_control
    cursor_leave_watcher-take_control entry_y s parked inside later x y a left =
        let begun : Watcher Q = record {
          session = dispatch_one tx hash write_ok peer_addr (Message.take_control entry_y) s;
          parked = parked;
        } in
        ap (λ e. tx.accepted e.0.session.tx_out)
          (inside_quiet (some (pos take_entry_inset_px, pos entry_y) ∷ inside) (some (x, y) ∷ later)
            begun (refl, a))
        ∙ ap tx.accepted (leave_once x y later begun refl left)
        ∙ tx.accepts (Message.release_control (clamp_to_u16 y)) s.tx_out
