-- ===== src/Server/Tasks/Routes.antt =====
-- Every frame of the client goes where it belongs, once and in order.
use kmwarp.Base.{
  ℕ, suc, ◌+◌, ◌≡◌, refl, sym, ap, ◌∙◌, List, [], ◌∷◌, ◌++◌, Option, none, some, append_assoc,
  append-nil, arith,
}
use kmwarp.Wire.{Message}
use kmwarp.Channel.{Sender, sent, taken}
use kmwarp.Server.Tasks.{Reader, send_if, pulse, route, reader_task}

-- The frames that are handled: those before a `Bye`.
abbrev pub before_bye : List Message → List Message
before_bye [] = []
before_bye (Message.bye reason_code ∷ ms) = []
before_bye (m ∷ ms) = m ∷ before_bye ms

abbrev pub pongs : List Message → List Message
pongs [] = []
pongs (Message.echo_ping ts_ns ∷ ms) = Message.echo_pong ts_ns ∷ pongs ms
pongs (m ∷ ms) = pongs ms

abbrev pub releases : List Message → List Message
releases [] = []
releases (Message.release_control y ∷ ms) = Message.release_control y ∷ releases ms
releases (m ∷ ms) = releases ms

abbrev pub clips : List Message → List Message
clips [] = []
clips (Message.clipboard_text flags bs ∷ ms) = Message.clipboard_text flags bs ∷ clips ms
clips (m ∷ ms) = clips ms

-- What has gone into a channel that may be missing.
abbrev pub accepted_by : {Q : Type 0} → Sender Q → Option Q → List Message
accepted_by tx none = []
accepted_by tx (some q) = tx.accepted q

abbrev pub if_any : {Q : Type 0} → Option Q → List Message → List Message
if_any none ms = []
if_any (some q) ms = ms

module _ {Q : Type 0} (tx : Sender Q)
    (free : (msg : Message) (q : Q) → (tx.try_send msg q).0 ≡ sent) where
  sent-accepted :
      (m : Message) (q : Q) → tx.accepted (tx.try_send m q).1 ≡ tx.accepted q ++ (m ∷ [])
  sent-accepted m q = tx.accepts m q ∙ ap (λ r. tx.accepted q ++ taken r m) (free m q)

  -- A message that was sent stands before those of the rest.
  pub sent_before :
      (m : Message) (q : Q) (rest : List Message)
      → tx.accepted (tx.try_send m q).1 ++ rest ≡ tx.accepted q ++ (m ∷ rest)
  sent_before m q rest =
      ap (λ ms. ms ++ rest) (sent-accepted m q) ∙ append_assoc (tx.accepted q) (m ∷ []) rest

  pub send_if_before :
      (m : Message) (o : Option Q) (rest : List Message)
      → accepted_by tx (send_if tx m o) ++ if_any (send_if tx m o) rest
        ≡ accepted_by tx o ++ if_any o (m ∷ rest)
  send_if_before m none rest = refl
  send_if_before m (some q) rest = sent_before m q rest

-- The frames that are read, a `Bye` that ends the task included.
abbrev pub read_count : List Message → ℕ
read_count [] = 0
read_count (Message.bye reason_code ∷ ms) = 1
read_count (m ∷ ms) = suc (read_count ms)

if_any_nothing : {Q : Type 0} (o : Option Q) (ms : List Message) → ms ++ if_any o [] ≡ ms
if_any_nothing none ms = append-nil ms
if_any_nothing (some q) ms = append-nil ms

module _ {Q B C : Type 0} (tx : Sender Q) (brain : Sender B) (clip : Sender C)
    (free : (msg : Message) (q : Q) → (tx.try_send msg q).0 ≡ sent) where
  reader_task-pongs :
      (ms : List Message) (r : Reader Q B C)
      → tx.accepted (reader_task tx brain clip ms r).tx_out
        ≡ tx.accepted r.tx_out ++ pongs (before_bye ms)
  unfolding reader_task
  reader_task-pongs [] r = sym (append-nil _)
  reader_task-pongs (Message.bye reason_code ∷ ms) r = sym (append-nil _)
  reader_task-pongs (Message.echo_ping ts_ns ∷ ms) r =
      reader_task-pongs ms (route tx brain clip (Message.echo_ping ts_ns) (pulse r))
      ∙ sent_before tx free (Message.echo_pong ts_ns) r.tx_out (pongs (before_bye ms))
  reader_task-pongs (m ∷ ms) r = reader_task-pongs ms (route tx brain clip m (pulse r))

  reader_task-pulses :
      (ms : List Message) (r : Reader Q B C)
      → (reader_task tx brain clip ms r).pulses ≡ r.pulses + read_count ms
  unfolding reader_task
  reader_task-pulses [] r = omega arith
  reader_task-pulses (Message.bye reason_code ∷ ms) r = omega arith
  reader_task-pulses (m ∷ ms) r =
      reader_task-pulses ms (route tx brain clip m (pulse r)) ∙ omega arith

module _ {Q B C : Type 0} (tx : Sender Q) (brain : Sender B) (clip : Sender C)
    (free : (msg : Message) (b : B) → (brain.try_send msg b).0 ≡ sent) where
  reader_task-releases :
      (ms : List Message) (r : Reader Q B C)
      → accepted_by brain (reader_task tx brain clip ms r).brain_tx
        ≡ accepted_by brain r.brain_tx ++ if_any r.brain_tx (releases (before_bye ms))
  unfolding reader_task
  reader_task-releases [] r = sym (if_any_nothing r.brain_tx _)
  reader_task-releases (Message.bye reason_code ∷ ms) r = sym (if_any_nothing r.brain_tx _)
  reader_task-releases (Message.release_control y ∷ ms) r =
      reader_task-releases ms (route tx brain clip (Message.release_control y) (pulse r))
      ∙ send_if_before brain free (Message.release_control y) r.brain_tx (releases (before_bye ms))
  reader_task-releases (m ∷ ms) r = reader_task-releases ms (route tx brain clip m (pulse r))

module _ {Q B C : Type 0} (tx : Sender Q) (brain : Sender B) (clip : Sender C)
    (free : (msg : Message) (q : C) → (clip.try_send msg q).0 ≡ sent) where
  reader_task-clips :
      (ms : List Message) (r : Reader Q B C)
      → accepted_by clip (reader_task tx brain clip ms r).clip_in_tx
        ≡ accepted_by clip r.clip_in_tx ++ if_any r.clip_in_tx (clips (before_bye ms))
  unfolding reader_task
  reader_task-clips [] r = sym (if_any_nothing r.clip_in_tx _)
  reader_task-clips (Message.bye reason_code ∷ ms) r = sym (if_any_nothing r.clip_in_tx _)
  reader_task-clips (Message.clipboard_text flags bs ∷ ms) r =
      reader_task-clips ms (route tx brain clip (Message.clipboard_text flags bs) (pulse r))
      ∙ send_if_before clip free (Message.clipboard_text flags bs) r.clip_in_tx
          (clips (before_bye ms))
  reader_task-clips (m ∷ ms) r = reader_task-clips ms (route tx brain clip m (pulse r))

module _ {Q B C : Type 0} (tx : Sender Q) (brain : Sender B) (clip : Sender C)
    (free : (msg : Message) (q : Q) → (tx.try_send msg q).0 ≡ sent)
    (free_brain : (msg : Message) (b : B) → (brain.try_send msg b).0 ≡ sent)
    (free_clip : (msg : Message) (q : C) → (clip.try_send msg q).0 ≡ sent) where
  -- On channels with room, over every sequence of frames up to the first `Bye`: each EchoPing is answered
  -- by the EchoPong of its time stamp, each ReleaseControl goes to the brain and each ClipboardText to the
  -- clipboard task, where these are installed, in order, once, and nothing else is sent; and every frame
  -- that is read, the `Bye` included, feeds the deadline.
  pub reader_task-routes :
      (ms : List Message) (r : Reader Q B C)
      → let after = reader_task tx brain clip ms r in
        (tx.accepted after.tx_out ≡ tx.accepted r.tx_out ++ pongs (before_bye ms))
        × (accepted_by brain after.brain_tx
            ≡ accepted_by brain r.brain_tx ++ if_any r.brain_tx (releases (before_bye ms)))
        × (accepted_by clip after.clip_in_tx
            ≡ accepted_by clip r.clip_in_tx ++ if_any r.clip_in_tx (clips (before_bye ms)))
        × (after.pulses ≡ r.pulses + read_count ms)
  reader_task-routes ms r = (
    reader_task-pongs tx brain clip free ms r,
    reader_task-releases tx brain clip free_brain ms r,
    reader_task-clips tx brain clip free_clip ms r,
    reader_task-pulses tx brain clip free ms r,
  )
