-- ===== src/Client/ClipboardOut.antt =====
-- crates/client/src/net/pump.rs: `clipboard_out_task`, which sends local clipboard changes.
use kmwarp.Base.{
  ℕ, ◌≡◌, refl, sym, ap, ◌∙◌, Bool, true, false, Bool-cases, inl, inr, List, [], ◌∷◌, ◌++◌,
  append_assoc, append-nil, if◌then◌else◌,
}
use kmwarp.Wire.{Message}
use kmwarp.Clipboard.{EchoGuard, is_echo_of_remote, split}
use kmwarp.Channel.{Sender, SendResult, sent, full, closed, taken}

-- The outbound channel and the hash of the echo guard. A round's result is `false` where the task
-- returns.
module _ {Q : Type 0} (tx : Sender Q) (hash : List ℕ → List ℕ) where
  abbrev pub after_chunk : SendResult × Q → (Q → Q × Bool) → Q × Bool
  after_chunk (sent, q) more = more q
  after_chunk (full, q) more = (q, true)
  after_chunk (closed, q) more = (q, false)

  -- The loop over the frames of one text: a full channel ends it.
  unfoldable pub send_chunks : List Message → Q → Q × Bool
  send_chunks [] q = (q, true)
  send_chunks (msg ∷ msgs) q = after_chunk (tx.try_send msg q) (λ q'. send_chunks msgs q')

  -- One local change, with the echo guard as it is then.
  unfoldable pub on_change : List ℕ × EchoGuard → Q → Q × Bool
  unfolding is_echo_of_remote send_chunks
  on_change (text, guard) q =
      if is_echo_of_remote hash guard text then (q, true) else send_chunks (split text) q

  abbrev pub next_change : Q × Bool → (Q → Q × Bool) → Q × Bool
  next_change (q, true) more = more q
  next_change (q, false) more = (q, false)

  -- The changes until the listener's channel closes, or the task returns.
  unfoldable pub clipboard_out_task : List (List ℕ × EchoGuard) → Q → Q × Bool
  unfolding on_change
  clipboard_out_task [] q = (q, true)
  clipboard_out_task (change ∷ changes) q =
      next_change (on_change change q) (λ q'. clipboard_out_task changes q')

  -- The frames that a list of changes is worth: none for an echo.
  unfoldable pub frames_of : List (List ℕ × EchoGuard) → List Message
  frames_of [] = []
  frames_of ((text, guard) ∷ changes) =
      (if is_echo_of_remote hash guard text then [] else split text) ++ frames_of changes

  module _ (free : (msg : Message) (q : Q) → (tx.try_send msg q).0 ≡ sent) where
    after_chunk-free :
        (msg : Message) (q : Q) (more : Q → Q × Bool)
        → after_chunk (tx.try_send msg q) more ≡ more (tx.try_send msg q).1
    after_chunk-free msg q more = ap (λ r. after_chunk (r, (tx.try_send msg q).1) more) (free msg q)

    send_chunks-accepted :
        (msgs : List Message) (q : Q)
        → (tx.accepted (send_chunks msgs q).0 ≡ tx.accepted q ++ msgs)
          × ((send_chunks msgs q).1 ≡ true)
    unfolding send_chunks
    send_chunks-accepted [] q = (sym (append-nil (tx.accepted q)), refl)
    send_chunks-accepted (msg ∷ msgs) q =
        let step = after_chunk-free msg q (λ q'. send_chunks msgs q') in
        let rest = send_chunks-accepted msgs (tx.try_send msg q).1 in
        let took = tx.accepts msg q ∙ ap (λ r. tx.accepted q ++ taken r msg) (free msg q) in
        (
          ap (λ e. tx.accepted e.0) step
              ∙ rest.0
              ∙ ap (λ a. a ++ msgs) took
              ∙ append_assoc (tx.accepted q) (msg ∷ []) msgs,
          ap (λ e. e.1) step ∙ rest.1,
        )

    pub on_change-accepted :
        (text : List ℕ) (guard : EchoGuard) (q : Q)
        → (tx.accepted (on_change (text, guard) q).0
            ≡ tx.accepted q ++ (if is_echo_of_remote hash guard text then [] else split text))
          × ((on_change (text, guard) q).1 ≡ true)
    unfolding on_change
    on_change-accepted text guard q = elim (Bool-cases (is_echo_of_remote hash guard text)) [
      | inl echo ↦ rw echo (sym (append-nil (tx.accepted q)), refl)
      | inr fresh ↦ rw fresh (send_chunks-accepted (split text) q)
    ]

    -- On an outbound channel with room: the task sends, in order, the frames of each local change that
    -- is not an echo of what the peer wrote, and nothing for an echo, and goes on.
    clipboard_out_task-frames_of :
        (changes : List (List ℕ × EchoGuard)) (q : Q)
        → (tx.accepted (clipboard_out_task changes q).0 ≡ tx.accepted q ++ frames_of changes)
          × ((clipboard_out_task changes q).1 ≡ true)
    unfolding clipboard_out_task frames_of
    clipboard_out_task-frames_of [] q = (sym (append-nil (tx.accepted q)), refl)
    clipboard_out_task-frames_of ((text, guard) ∷ changes) q =
        let here = on_change-accepted text guard q in
        let q' = (on_change (text, guard) q).0 in
        let rest = clipboard_out_task-frames_of changes q' in
        let step = ap (λ go. next_change (q', go) (λ p. clipboard_out_task changes p)) here.1 in
        (
          ap (λ e. tx.accepted e.0) step
              ∙ rest.0
              ∙ ap (λ a. a ++ frames_of changes) here.0
              ∙ append_assoc (tx.accepted q)
                  (if is_echo_of_remote hash guard text then [] else split text)
                  (frames_of changes),
          ap (λ e. e.1) step ∙ rest.1,
        )
