-- ===== src/Client/Tasks/Control.antt =====
-- The hand-backs of a session against the TakeControls that it reads.
use kmwarp.Base.{
  if_keeps, ℕ, ◌+◌, ◌%◌, ◌≤◌, suc, ◌≡◌, refl, ap, ◌∙◌, ℤ, Bool, true, false, Bool-cases, inl, inr,
  Option, none, some, List, [], ◌∷◌, ◌++◌, Result, ok, err, if◌then◌else◌, arith, leb, length,
}
use kmwarp.Wire.{Message}
use kmwarp.Channel.{Sender, SendResult, sent, full, closed, taken}
use kmwarp.Clipboard.{
  ReassembleError, is_echo_of_remote, remember_remote_write, split, number_from, chunk_size, chunks,
}
use kmwarp.Edge.{clamp_to_u16}
use kmwarp.Client.{Session, ClientStatus}
use kmwarp.Client.Pump.{
  dispatch_one, dispatch_control, after_mouse, after_key, handle_clipboard_text, write_text,
  drop_session, is_bye,
}
use kmwarp.Client.Watch.{Watcher, after_send}
use kmwarp.Client.ClipboardOut.{send_chunks, after_chunk}
use kmwarp.Server.Tasks.{heartbeat_producer, beat_sent}
use kmwarp.Client.Tasks.{
  Event, Tasks, TaskExit, step, until_exit, unless_exited, run_session_tasks, new_tasks,
}
use kmwarp.Client.Tasks.Runs.{tick_keeps}

abbrev pub releases : List Message → ℕ
releases [] = 0
releases (Message.release_control y ∷ msgs) = suc (releases msgs)
releases (msg ∷ msgs) = releases msgs

abbrev pub takes_of : Message → ℕ
takes_of (Message.take_control y) = 1
takes_of msg = 0

abbrev pub takes_at : {E : Type 0} → Event E → ℕ
takes_at (Event.frame (ok msg)) = takes_of msg
takes_at e = 0

-- The TakeControls among what the injector reads.
abbrev pub takes : {E : Type 0} → List (Event E) → ℕ
takes [] = 0
takes (e ∷ es) = takes_at e + takes es

releases-append :
    (msgs more : List Message) → releases (msgs ++ more) ≡ releases msgs + releases more
releases-append [] more = omega arith
releases-append (Message.release_control y ∷ msgs) more = omega (arith, releases-append msgs more)
releases-append (msg ∷ msgs) more = releases-append msgs more

-- The frames of a text are no hand-backs.
releases-number_from :
    (i last_idx : ℕ) (parts : List (List ℕ)) → releases (number_from i last_idx parts) ≡ 0
unfolding number_from
releases-number_from i last_idx [] = refl
releases-number_from i last_idx (part ∷ parts) = releases-number_from (i + 1) last_idx parts

releases-split : (text : List ℕ) → releases (split text) ≡ 0
unfolding split
releases-split text = elim (Bool-cases (leb (length text) chunk_size)) [
  | inl short ↦ rw short refl
  | inr long ↦ rw long (releases-number_from 0 _ (chunks chunk_size text))
]

releases-taken : (r : SendResult) (msg : Message) → releases (taken r msg) ≤ releases (msg ∷ [])
releases-taken sent msg = omega arith
releases-taken full msg = omega arith
releases-taken closed msg = omega arith

module _ {Q : Type 0} (tx : Sender Q) where
  -- The hand-backs that the channel has accepted.
  abbrev pub count : Q → ℕ
  count q = releases (tx.accepted q)

  count-taken :
      (msg : Message) (q : Q)
      → count (tx.try_send msg q).1 ≡ count q + releases (taken (tx.try_send msg q).0 msg)
  count-taken msg q =
      ap releases (tx.accepts msg q)
      ∙ releases-append (tx.accepted q) (taken (tx.try_send msg q).0 msg)

  count-try_send :
      (msg : Message) (q : Q) → count (tx.try_send msg q).1 ≤ count q + releases (msg ∷ [])
  count-try_send msg q = omega (arith, count-taken msg q, releases-taken (tx.try_send msg q).0 msg)

  count-after_chunk :
      (hash : List ℕ → List ℕ) (r : SendResult × Q) (msgs : List Message) (bound : ℕ)
      → count r.1 ≤ bound
      → count (send_chunks tx hash msgs r.1).0 ≤ bound
      → count (after_chunk tx hash r (λ q'. send_chunks tx hash msgs q')).0 ≤ bound
  count-after_chunk hash (sent, q) msgs bound here later = later
  count-after_chunk hash (full, q) msgs bound here later = here
  count-after_chunk hash (closed, q) msgs bound here later = here

  count-send_chunks :
      (hash : List ℕ → List ℕ) (msgs : List Message) (q : Q)
      → count (send_chunks tx hash msgs q).0 ≤ count q + releases msgs
  unfolding send_chunks
  count-send_chunks hash [] q = omega arith
  count-send_chunks hash (msg ∷ msgs) q =
      let here = count-try_send msg q in
      let later = count-send_chunks hash msgs (tx.try_send msg q).1 in
      let both : releases (msg ∷ msgs) ≡ releases (msg ∷ []) + releases msgs =
        releases-append (msg ∷ []) msgs in
      count-after_chunk hash (tx.try_send msg q) msgs _ (omega arith) (omega arith)

  -- What the session owes: the hand-backs so far, and one more while it has control.
  abbrev owed : Session Q → ℕ
  owed s = count s.tx_out + (if s.active then 1 else 0)

module _ {Q : Type 0} (tx : Sender Q) (hash : List ℕ → List ℕ) (write_ok : List ℕ → Bool)
    (peer_addr : List ℕ) where
  write_text-owed :
      (r : Result (Option (List ℕ)) ReassembleError) (s : Session Q)
      → owed tx (write_text tx hash write_ok peer_addr r s) ≡ owed tx s
  write_text-owed (ok (some text)) s =
      if_keeps (λ s'. owed tx s' ≡ owed tx s) (write_ok text)
        (record s {
          clipboard = s.clipboard ++ (text ∷ []);
          guard = record s.guard {
            echo_guard = remember_remote_write hash s.guard.echo_guard text;
          };
        })
        s (λ good. refl) (λ bad. refl)
  write_text-owed (ok none) s = refl
  write_text-owed (err e) s = refl

  dispatch_one-owed :
      (msg : Message) (s : Session Q)
      → owed tx (dispatch_one tx hash write_ok peer_addr msg s) ≤ owed tx s + takes_of msg
  unfolding dispatch_one after_mouse after_key dispatch_control handle_clipboard_text
  dispatch_one-owed (Message.echo_ping ts) s =
      omega (arith, count-try_send tx (Message.echo_pong ts) s.tx_out)
  dispatch_one-owed (Message.take_control y) s = ground arith
  dispatch_one-owed (Message.clipboard_text f b) s = omega (arith, write_text-owed _ _)
  dispatch_one-owed (Message.key_event hid state m) s = omega arith
  dispatch_one-owed (Message.mouse_button b st) s = omega arith
  dispatch_one-owed msg s = omega arith

module _ {Q : Type 0} (tx : Sender Q) (is_closed : Q → Bool) (hash : List ℕ → List ℕ)
    (write_ok : List ℕ → Bool) (safe_warp_x : ℤ) (peer_addr : List ℕ) where
  after_send-owed :
      (r : SendResult × Q) (y : ℤ) (w : Watcher Q)
      → w.session.active ≡ true
      → count tx r.1
        ≡ count tx w.session.tx_out
          + releases (taken r.0 (Message.release_control (clamp_to_u16 y)))
      → owed tx (after_send tx safe_warp_x peer_addr r y w).0.session ≤ owed tx w.session
  after_send-owed (sent, q) y w active bound =
      rw active (let b : count tx q ≡ count tx w.session.tx_out + 1 = bound in omega arith)
  after_send-owed (full, q) y w active bound =
      let b : count tx q ≡ count tx w.session.tx_out + 0 = bound in omega arith
  after_send-owed (closed, q) y w active bound =
      let b : count tx q ≡ count tx w.session.tx_out + 0 = bound in omega arith

  count-heartbeat :
      (seq : ℕ) (r : SendResult × Q)
      → count tx (beat_sent r (heartbeat_producer tx is_closed 0 ((seq + 1) % 4294967296))).0
        ≡ count tx r.1
  unfolding heartbeat_producer
  count-heartbeat seq (sent, q) = refl
  count-heartbeat seq (full, q) = refl
  count-heartbeat seq (closed, q) = refl

  step-owed :
      {E : Type 0} (e : Event E) (t : Tasks Q)
      → owed tx (step tx is_closed hash write_ok safe_warp_x peer_addr e t).0.watcher.session
        ≤ owed tx t.watcher.session + takes_at e
  unfolding step
  step-owed {E} (Event.frame (ok msg)) t =
      let next =
        dispatch_one tx hash write_ok peer_addr msg
          (record t.watcher.session { pulses = t.watcher.session.pulses + 1 }) in
      let bound =
        dispatch_one-owed tx hash write_ok peer_addr msg
          (record t.watcher.session { pulses = t.watcher.session.pulses + 1 }) in
      if_keeps {A = Session Q × Option (Result (Unit {0}) E)}
        (λ r. owed tx r.0 ≤ owed tx t.watcher.session + takes_of msg) (is_bye msg)
        (next, some (ok tt)) (next, none) (λ bye. bound) (λ more. bound)
  step-owed (Event.frame (err e)) t = omega arith
  step-owed (Event.position p) t =
      tick_keeps tx safe_warp_x peer_addr (λ r. owed tx r.0.session ≤ owed tx t.watcher.session + 0)
        p t.watcher (omega arith)
        (λ y active. omega (arith, after_send-owed _ y t.watcher active (count-taken tx _ _)))
  step-owed (Event.local_change text) t =
      let s = t.watcher.session in
      if_keeps {A = Q × Bool} (λ r. owed tx (record s { tx_out = r.0 }) ≤ owed tx s + 0)
        (is_echo_of_remote hash s.guard.echo_guard text) (s.tx_out, true)
        (send_chunks tx hash (split text) s.tx_out) (λ echo. omega arith)
        (λ fresh.
          omega (arith, count-send_chunks tx hash (split text) s.tx_out, releases-split text))
  step-owed Event.listener_closed t = omega arith
  step-owed Event.beat t =
      let s = t.watcher.session in
      if_keeps {A = Q × Bool} (λ r. owed tx (record s { tx_out = r.0 }) ≤ owed tx s + 0)
        (is_closed s.tx_out) (s.tx_out, false)
        (beat_sent (tx.try_send (Message.heartbeat t.seq) s.tx_out)
          (heartbeat_producer tx is_closed 0 ((t.seq + 1) % 4294967296)))
        (λ shut. omega arith)
        (λ open_still. omega (
          arith,
          count-heartbeat t.seq (tx.try_send (Message.heartbeat t.seq) s.tx_out),
          count-try_send tx (Message.heartbeat t.seq) s.tx_out,
        ))
  step-owed Event.silence t = omega arith
  step-owed Event.panic t = omega arith
  step-owed (Event.encoder_ended true) t = omega arith
  step-owed (Event.encoder_ended false) t = omega arith

  unless_exited-owed :
      (r : Tasks Q × Option TaskExit) (more : Tasks Q → Tasks Q × Option TaskExit) (bound : ℕ)
      → owed tx r.0.watcher.session ≤ bound
      → owed tx (more r.0).0.watcher.session ≤ bound
      → owed tx (unless_exited r more).0.watcher.session ≤ bound
  unless_exited-owed (t, none) more bound here later = later
  unless_exited-owed (t, some exit) more bound here later = here

  until_exit-owed :
      {E : Type 0} (events : List (Event E)) (t : Tasks Q)
      → owed tx
          (until_exit tx is_closed hash write_ok safe_warp_x peer_addr events t).0.watcher.session
        ≤ owed tx t.watcher.session + takes events
  unfolding until_exit
  until_exit-owed [] t = omega arith
  until_exit-owed (e ∷ es) t =
      let next = step tx is_closed hash write_ok safe_warp_x peer_addr e t in
      let here = step-owed e t in
      let later = until_exit-owed es next.0 in
      unless_exited-owed next _ _ (omega arith) (omega arith)

  -- In whatever order the tasks of a session run and whichever exits first, on any outbound channel:
  -- the session has sent no more ReleaseControls than it has read TakeControls.
  run_session_tasks-releases :
      {E : Type 0} (events : List (Event E)) (q : Q) (status : Option ClientStatus)
      → releases (
          tx.accepted
            (run_session_tasks tx is_closed hash write_ok safe_warp_x peer_addr events q
              status).0.tx_out)
        ≤ releases (tx.accepted q) + takes events
  unfolding run_session_tasks drop_session
  run_session_tasks-releases events q status =
      omega (arith, until_exit-owed events (new_tasks q status))
