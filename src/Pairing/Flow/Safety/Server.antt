-- ===== src/Pairing/Flow/Safety/Server.antt =====
-- crates/server/src/net/pairing.rs: the server pins nothing but an authenticated certificate.
use kmwarp.Base.{ℕ, ◌≡◌, refl, sym, ap, ◌∙◌, ◌⊎◌, inl, inr, Bool, true, false, List, Option, ok}
use mathlib.Core.Path.{subst}
use kmwarp.Wire.{Message}
use kmwarp.Pairing.{Crypto, finish_pairing, generate_code, start_server}
use kmwarp.Pairing.Pins.{Disk, Hex}
use kmwarp.Pairing.Flow.{
  World, receive, send, take_spake_b, derive, lift, server_handshake, display_code,
  run_server_pairing_flow,
}
use kmwarp.Pairing.Flow.Steps.{
  Keeps, after-Keeps, Received-trans_still, Received-trans, receive-Keeps, receive-Received,
  send-Keeps, send-Sent,
}
use kmwarp.Pairing.Flow.Decisions.{
  take_spake_b-Keeps, take_spake_b_ok, lift-Keeps, lift_ok, derive-Keeps, derive_ok,
}
use kmwarp.Pairing.Flow.Safety.{Pinned, exchange_and_pin-Pinned}

module _ (c : Crypto) (hex : Hex) where
  display_code-Keeps : (shown : Bool) → Keeps (display_code c hex shown)
  display_code-Keeps true w = refl
  display_code-Keeps false w = refl

  display_code_ok :
      (shown : Bool) {w w' : World} → display_code c hex shown w ≡ (ok tt, w') → w' ≡ w
  display_code_ok true h = sym (ap (λ out. out.1) h)
  display_code_ok false h = cc

  server_handshake-Pinned :
      (session : c.Spake2) (msg_a cert : List ℕ) (w : World)
      → ((server_handshake c hex (session, msg_a) cert w).1.disk ≡ w.disk)
        ⊎ Pinned c hex session Message.pair_spake_b w
            (server_handshake c hex (session, msg_a) cert w).1.disk
  unfolding server_handshake
  server_handshake-Pinned session msg_a cert w =
      let P : Disk → Type 0 = λ d. (d ≡ w.disk) ⊎ Pinned c hex session Message.pair_spake_b w d in
      after-Keeps P (send (Message.pair_spake_a msg_a)) _ w (send-Keeps _) (inl refl) λ _ w₁ e₁.
        let sent = send-Sent _ w e₁ in
        after-Keeps P receive _ w₁ receive-Keeps (inl sent.disk) λ m w₂ e₂.
          let got = receive-Received e₂ in
          after-Keeps P (take_spake_b m) _ w₂ (take_spake_b-Keeps m) (inl (got.disk ∙ sent.disk))
            λ msg w₃ e₃.
              let (is, s₃) = take_spake_b_ok m e₃ in
              let came = Received-trans sent got is s₃ in
              after-Keeps P (derive c hex (finish_pairing c session msg)) _ w₃
                (derive-Keeps c hex _) (inl came.disk)
                λ key w₄ e₄.
                  let (derived, s₄) = derive_ok c hex _ e₄ in
                  exchange_and_pin-Pinned c hex session Message.pair_spake_b cert msg key
                    (Received-trans_still came s₄) derived

  abbrev pub ServerPinned : Option (List ℕ) → World → Disk → Type 0
  ServerPinned entropy w d =
      (code : List ℕ) × (started : c.Spake2 × List ℕ) × (generate_code entropy ≡ ok code)
      × (start_server c code ≡ ok started)
      × Pinned c hex started.0 Message.pair_spake_b w d

  -- Whatever the client sends, the server's pin file and temporary file are left alone, or the client
  -- sent an element from which the session of the displayed code derives a key, and a certificate with
  -- its tag under that key, and what was done to the files is a store of the hash of that certificate.
  pub run_server_pairing_flow-Pinned :
      (entropy : Option (List ℕ)) (shown : Bool) (cert : List ℕ) (w : World)
      → ((run_server_pairing_flow c hex entropy shown cert w).1.disk ≡ w.disk)
        ⊎ ServerPinned entropy w (run_server_pairing_flow c hex entropy shown cert w).1.disk
  unfolding run_server_pairing_flow
  run_server_pairing_flow-Pinned entropy shown cert w =
      let P : Disk → Type 0 = λ d. (d ≡ w.disk) ⊎ ServerPinned entropy w d in
      after-Keeps P (lift (generate_code entropy)) _ w (lift-Keeps _) (inl refl) λ code w₁ e₁.
        let (generated, s₁) = lift_ok (generate_code entropy) e₁ in
        after-Keeps P (display_code c hex shown) _ w₁ (display_code-Keeps shown)
          (inl (ap (λ w. w.disk) s₁))
          λ _ w₂ e₂.
            let s₂ = display_code_ok shown e₂ ∙ s₁ in
            after-Keeps P (lift (start_server c code)) _ w₂ (lift-Keeps _)
              (inl (ap (λ w. w.disk) s₂))
              λ started w₃ e₃.
                let (start, s₃) = lift_ok (start_server c code) e₃ in
                subst (λ v. P (server_handshake c hex started cert v).1.disk) (sym (s₃ ∙ s₂))
                  (elim (server_handshake-Pinned started.0 started.1 cert w) [
                    | inl kept ↦ inl kept
                    | inr pinned ↦ inr (code, started, generated, start, pinned)
                  ])
