-- ===== src/Server/Tasks/Alive.antt =====
-- Heartbeats, and the deadline that they feed.
use kmwarp.Base.{
  ℕ, zero, suc, ◌+◌, ◌-◌, ◌%◌, ◌<◌, ◌≡◌, refl, sym, ap, ◌∙◌, Bool, true, false, List, [], ◌∷◌, ◌++◌,
  if◌then◌else◌, All, arith, append-nil,
}
use kmwarp.Wire.{Message}
use kmwarp.Channel.{Sender, sent}
use kmwarp.Server.Tasks.{heartbeat_producer, beat_sent, deadline_watcher, heartbeat_period}
use kmwarp.Server.Tasks.Routes.{sent_before}

abbrev beats : (ticks seq : ℕ) → List Message
beats zero seq = []
beats (suc ticks) seq = Message.heartbeat seq ∷ beats ticks ((seq + 1) % 4294967296)

module _ {Q : Type 0} (tx : Sender Q) (is_closed : Q → Bool)
    (free : (msg : Message) (q : Q) → (tx.try_send msg q).0 ≡ sent)
    (open_ : (q : Q) → is_closed q ≡ false) where
  heartbeat_producer-step :
      (ticks seq : ℕ) (q : Q)
      → heartbeat_producer tx is_closed (suc ticks) seq q
        ≡ heartbeat_producer tx is_closed ticks
            ((seq + 1) % 4294967296)
            (tx.try_send (Message.heartbeat seq) q).1
  unfolding heartbeat_producer
  heartbeat_producer-step ticks seq q =
      let next = heartbeat_producer tx is_closed ticks ((seq + 1) % 4294967296) in
      let p = tx.try_send (Message.heartbeat seq) q in
      ap (λ b. if b then (q, false) else beat_sent p next) (open_ q)
      ∙ ap (λ r. beat_sent (r, p.1) next) (free (Message.heartbeat seq) q)

  -- On an open channel with room every tick sends a heartbeat, with the sequence numbers one after the
  -- other, wrapping at 2^32, and the task goes on.
  heartbeat_producer-beats :
      (ticks seq : ℕ) (q : Q)
      → (tx.accepted (heartbeat_producer tx is_closed ticks seq q).0
          ≡ tx.accepted q ++ beats ticks seq)
        × ((heartbeat_producer tx is_closed ticks seq q).1 ≡ true)
  heartbeat_producer-beats zero seq q = unfold heartbeat_producer in (sym (append-nil _), refl)
  heartbeat_producer-beats (suc ticks) seq q =
      let step = heartbeat_producer-step ticks seq q in
      let (sends, goes) =
        heartbeat_producer-beats ticks ((seq + 1) % 4294967296)
          (tx.try_send (Message.heartbeat seq) q).1 in
      (
        ap (λ out. tx.accepted out.0) step
            ∙ sends
            ∙ sent_before tx free (Message.heartbeat seq) q (beats ticks ((seq + 1) % 4294967296)),
        ap (λ out. out.1) step ∙ goes,
      )

-- The times between the arrivals of heartbeats that are sent each period and delayed that long, in order.
abbrev gaps_of : (last : ℕ) (delays : List ℕ) → List ℕ
gaps_of last [] = []
gaps_of last (delay ∷ delays) = (heartbeat_period + delay - last) ∷ gaps_of delay delays

-- A peer whose heartbeats all arrive less than 1.5 s after their tick is never declared dead.
deadline_watcher-gaps_of :
    (last : ℕ) (delays : List ℕ)
    → All (λ delay. delay < 1500) delays
    → deadline_watcher (gaps_of last delays) ≡ true
unfolding deadline_watcher
deadline_watcher-gaps_of last [] h = refl
deadline_watcher-gaps_of last (delay ∷ delays) (small, h) =
    let rest = deadline_watcher-gaps_of delay delays h in ground arith
