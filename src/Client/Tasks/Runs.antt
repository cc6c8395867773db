-- ===== src/Client/Tasks/Runs.antt =====
-- What each task of a session leaves alone, and the rule for invariants of all of them.
use kmwarp.Base.{
  if_keeps, ℕ, ◌≡◌, refl, ℤ, Bool, true, Option, none, some, List, [], ◌∷◌, leb_ℤ, pos,
}
use kmwarp.Wire.{Message}
use kmwarp.Channel.{Sender, SendResult, sent, full, closed}
use kmwarp.Edge.{clamp_to_u16}
use kmwarp.Client.Watch.{Watcher, tick, on_position, after_send}
use kmwarp.Client.Tasks.{Event, Tasks, TaskExit, step, until_exit, unless_exited}

module _ {Q : Type 0} (tx : Sender Q) (safe_warp_x : ℤ) (peer_addr : List ℕ) where
  -- A tick changes nothing, or the session is active and it makes an attempt to hand control back.
  pub tick_keeps {ℓ} :
      (P : Watcher Q × Bool → Type ℓ) (p : Option (ℤ × ℤ)) (w : Watcher Q)
      → P (w, true)
      → ((y : ℤ)
          → w.session.active ≡ true
          → P (
              after_send tx safe_warp_x peer_addr
                (tx.try_send (Message.release_control (clamp_to_u16 y)) w.session.tx_out)
                y
                w))
      → P (tick tx safe_warp_x peer_addr p w)
  unfolding tick on_position
  tick_keeps P none w quiet leave = quiet
  tick_keeps P (some (x, y)) w quiet leave =
      if_keeps P w.session.active _ _
        (λ active. if_keeps P (leb_ℤ x (pos 0)) _ _ (λ left. leave y active) (λ inside. quiet))
        (λ idle. quiet)

  after_send-guard :
      (r : SendResult × Q) (y : ℤ) (w : Watcher Q)
      → (after_send tx safe_warp_x peer_addr r y w).0.session.guard ≡ w.session.guard
  after_send-guard (sent, q) y w = refl
  after_send-guard (full, q) y w = refl
  after_send-guard (closed, q) y w = refl

  -- The watcher touches neither the guard nor the sink.
  pub tick-guard :
      (p : Option (ℤ × ℤ)) (w : Watcher Q)
      → (tick tx safe_warp_x peer_addr p w).0.session.guard ≡ w.session.guard
  tick-guard p w =
      tick_keeps (λ r. r.0.session.guard ≡ w.session.guard) p w refl
        (λ y active. after_send-guard _ y w)

unless_exited_keeps {ℓ} :
    {Q : Type 0} (P : Tasks Q → Type ℓ) (r : Tasks Q × Option TaskExit)
    (more : Tasks Q → Tasks Q × Option TaskExit)
    → ((t : Tasks Q) → P t → P (more t).0)
    → P r.0
    → P (unless_exited r more).0
unless_exited_keeps P (t, none) more keep h = keep t h
unless_exited_keeps P (t, some exit) more keep h = h

module _ {Q : Type 0} (tx : Sender Q) (is_closed : Q → Bool) (hash : List ℕ → List ℕ)
    (write_ok : List ℕ → Bool) (safe_warp_x : ℤ) (peer_addr : List ℕ) where
  -- What every step keeps holds when a task exits.
  pub until_exit_keeps {ℓ} :
      {E : Type 0} (P : Tasks Q → Type ℓ)
      → ((e : Event E) (t : Tasks Q)
          → P t
          → P (step tx is_closed hash write_ok safe_warp_x peer_addr e t).0)
      → (events : List (Event E)) (t : Tasks Q) → P t
      → P (until_exit tx is_closed hash write_ok safe_warp_x peer_addr events t).0
  unfolding until_exit
  until_exit_keeps P keep [] t h = h
  until_exit_keeps P keep (e ∷ es) t h =
      unless_exited_keeps P (step tx is_closed hash write_ok safe_warp_x peer_addr e t) _
        (λ t'. until_exit_keeps P keep es t') (keep e t h)
