-- ===== src/Server/Peer/Quiet.antt =====
-- The messages of the other tasks of a session of the server press and release nothing.
use kmwarp.Base.{
  ap, append-nil, ℕ, ◌+◌, ◌≡◌, refl, sym, ◌∙◌, Bool, true, false, List, [], ◌∷◌, ◌++◌, if_keeps,
  Bool-cases, inl, inr, leb, length,
}
use mathlib.Core.Path.{subst}
use kmwarp.StuckKeys.{HeldKeys}
use kmwarp.Clipboard.{split, number_from, is_echo_of_remote, chunk_size, chunks}
use kmwarp.Wire.{Message}
use kmwarp.Channel.{Sender, SendResult, sent, full, closed, taken}
use kmwarp.Server.Brain.Keys.{wire_is_down, Keeps}
use kmwarp.Server.Disconnect.{wire_is_down-concat}
use kmwarp.Server.Tasks.{heartbeat_producer, beat_sent}
use kmwarp.Client.ClipboardOut.{on_change-accepted}
use kmwarp.Server.Peer.{merge}
use kmwarp.Server.ClipSync.{Pasteboard, ClipState, clipboard_out}

-- Messages that press and release nothing.
unfoldable pub IsQuiet : List Message → Type 0
IsQuiet msgs = (j : ℕ) (before : Bool) → wire_is_down j before msgs ≡ before

IsQuiet-number_from :
    (i last_idx : ℕ) (parts : List (List ℕ)) → IsQuiet (number_from i last_idx parts)
unfolding number_from IsQuiet
IsQuiet-number_from i last_idx [] j before = refl
IsQuiet-number_from i last_idx (part ∷ parts) j before =
    IsQuiet-number_from (i + 1) last_idx parts j before

IsQuiet-split : (text : List ℕ) → IsQuiet (split text)
unfolding split IsQuiet
IsQuiet-split text j before = elim (Bool-cases (leb (length text) chunk_size)) [
  | inl short ↦ rw short refl
  | inr long ↦ rw long (IsQuiet-number_from 0 _ (chunks chunk_size text) j before)
]

Keeps-quiet :
    (held : HeldKeys) (msgs more : List Message)
    → IsQuiet more
    → Keeps held msgs
    → Keeps held (msgs ++ more)
unfolding Keeps IsQuiet
Keeps-quiet held msgs more quiet (v, same) = (
  v,
  λ j. same j ∙ sym (wire_is_down-concat j false msgs more ∙ quiet j (wire_is_down j false msgs)),
)

IsQuiet-taken : (r : SendResult) (msg : Message) → IsQuiet (msg ∷ []) → IsQuiet (taken r msg)
unfolding IsQuiet
IsQuiet-taken sent msg quiet = quiet
IsQuiet-taken full msg quiet = λ j before. refl
IsQuiet-taken closed msg quiet = λ j before. refl

-- Messages of which each leaves a key as it is.
abbrev pub Spares : ℕ → List Message → Type 0
Spares j [] = j ≡ j
Spares j (msg ∷ msgs) =
    ((before : Bool) → wire_is_down j before (msg ∷ []) ≡ before) × Spares j msgs

-- A message that spares a key can be left out.
skip_spared :
    (j : ℕ) (before : Bool) (msg : Message) (msgs : List Message)
    → wire_is_down j before (msg ∷ []) ≡ before
    → wire_is_down j before (msg ∷ msgs) ≡ wire_is_down j before msgs
skip_spared j before msg msgs spared =
    wire_is_down-concat j before (msg ∷ []) msgs ∙ ap (λ b. wire_is_down j b msgs) spared

Spares-append :
    (j : ℕ) (before : Bool) (msgs more : List Message)
    → Spares j msgs
    → wire_is_down j before (msgs ++ more) ≡ wire_is_down j before more
Spares-append j before [] more spared = refl
Spares-append j before (msg ∷ msgs) more spared =
    skip_spared j before msg (msgs ++ more) (spared.0 before)
    ∙ Spares-append j before msgs more spared.1

-- Messages that spare a key do not matter for it, wherever they stand among others.
pub Spares-merge :
    (j : ℕ) (turns : List Bool) (before : Bool) (msgs more : List Message)
    → Spares j msgs
    → wire_is_down j before (merge turns msgs more) ≡ wire_is_down j before more
Spares-merge j [] before msgs more spared = Spares-append j before msgs more spared
Spares-merge j (true ∷ turns) before [] more spared = refl
Spares-merge j (true ∷ turns) before (msg ∷ msgs) more spared =
    skip_spared j before msg (merge turns msgs more) (spared.0 before)
    ∙ Spares-merge j turns before msgs more spared.1
Spares-merge j (false ∷ turns) before msgs [] spared =
    ap (λ ms. wire_is_down j before ms) (sym (append-nil msgs))
    ∙ Spares-append j before msgs [] spared
Spares-merge j (false ∷ turns) before msgs (m ∷ more) spared =
    wire_is_down-concat j before (m ∷ []) (merge turns msgs more)
    ∙ Spares-merge j turns (wire_is_down j before (m ∷ [])) msgs more spared
    ∙ sym (wire_is_down-concat j before (m ∷ []) more)

module _ {Q : Type 0} (tx : Sender Q) where
  pub try_send-Keeps :
      (held : HeldKeys) (msg : Message) (q : Q)
      → IsQuiet (msg ∷ [])
      → Keeps held (tx.accepted q)
      → Keeps held (tx.accepted (tx.try_send msg q).1)
  try_send-Keeps held msg q quiet k =
      subst (Keeps held) (sym (tx.accepts msg q))
        (Keeps-quiet held (tx.accepted q) _ (IsQuiet-taken (tx.try_send msg q).0 msg quiet) k)

  pub beat-Keeps :
      (is_closed : Q → Bool) (held : HeldKeys) (seq : ℕ) (r : SendResult × Q)
      → Keeps held (tx.accepted r.1)
      → Keeps held (tx.accepted (beat_sent r (heartbeat_producer tx is_closed 0 seq)).0)
  unfolding heartbeat_producer
  beat-Keeps is_closed held seq (sent, q) k = k
  beat-Keeps is_closed held seq (full, q) k = k
  beat-Keeps is_closed held seq (closed, q) k = k

  module _ {P : Type 0} (pb : Pasteboard P) (hash : List ℕ → List ℕ)
      (free : (msg : Message) (q : Q) → (tx.try_send msg q).0 ≡ sent) where
    pub clipboard_out-Keeps :
        (held : HeldKeys) (changes : List (List ℕ)) (s : ClipState P Q)
        → Keeps held (tx.accepted s.tx_out)
        → Keeps held (tx.accepted (clipboard_out pb tx hash changes s).0.tx_out)
    unfolding IsQuiet
    clipboard_out-Keeps held [] s k = k
    clipboard_out-Keeps held (text ∷ changes) s k =
        subst (Keeps held) (sym (on_change-accepted tx hash free text s.echo_guard s.tx_out).0) (
          Keeps-quiet held (tx.accepted s.tx_out) _
            (if_keeps IsQuiet (is_echo_of_remote hash s.echo_guard text) [] (split text)
              (λ echo j before. refl) (λ fresh. IsQuiet-split text))
            k)
