-- ===== src/Pairing/Flow/Safety/Client.antt =====
-- crates/client/src/net/pairing.rs: the client pins nothing but an authenticated certificate.
use kmwarp.Base.{ℕ, ◌≡◌, refl, sym, ap, ◌⊎◌, inl, inr, List, Option, none, some, ok}
use mathlib.Core.Path.{subst}
use kmwarp.Wire.{Message}
use kmwarp.Pairing.{Crypto, finish_pairing, start_client}
use kmwarp.Pairing.Pins.{Disk, Hex}
use kmwarp.Pairing.Flow.{
  World, receive, send, take_spake_a, derive, lift, client_handshake, provided,
  run_client_pairing_flow,
}
use kmwarp.Pairing.Flow.Steps.{
  Keeps, Received, after-Keeps, Received-trans_still, Received-Sent, receive-Keeps,
  receive-Received, send-Keeps, send-Sent,
}
use kmwarp.Pairing.Flow.Decisions.{
  take_spake_a-Keeps, take_spake_a_ok, lift-Keeps, lift_ok, derive-Keeps, derive_ok,
}
use kmwarp.Pairing.Flow.Safety.{Pinned, exchange_and_pin-Pinned}

module _ (c : Crypto) (hex : Hex) where
  client_handshake-Pinned :
      (session : c.Spake2) (msg_b msg_a cert : List ℕ) {w w₁ : World}
      → Received (Message.pair_spake_a msg_a) w w₁
      → ((client_handshake c hex (session, msg_b) msg_a cert w₁).1.disk ≡ w.disk)
        ⊎ Pinned c hex session Message.pair_spake_a w
            (client_handshake c hex (session, msg_b) msg_a cert w₁).1.disk
  unfolding client_handshake
  client_handshake-Pinned session msg_b msg_a cert {w} {w₁} got =
      let P : Disk → Type 0 = λ d. (d ≡ w.disk) ⊎ Pinned c hex session Message.pair_spake_a w d in
      after-Keeps P (send (Message.pair_spake_b msg_b)) _ w₁ (send-Keeps _) (inl got.disk)
        λ _ w₂ e₂.
          let came = Received-Sent got (send-Sent _ w₁ e₂) in
          after-Keeps P (derive c hex (finish_pairing c session msg_a)) _ w₂ (derive-Keeps c hex _)
            (inl came.disk)
            λ key w₃ e₃.
              let (derived, s₃) = derive_ok c hex _ e₃ in
              exchange_and_pin-Pinned c hex session Message.pair_spake_a cert msg_a key
                (Received-trans_still came s₃) derived

  provided-Keeps : (provider : Option (List ℕ)) → Keeps (provided c hex provider)
  provided-Keeps (some code) w = refl
  provided-Keeps none w = refl

  provided_ok :
      (provider : Option (List ℕ)) {code : List ℕ} {w w' : World}
      → provided c hex provider w ≡ (ok code, w')
      → (provider ≡ some code) × (w' ≡ w)
  provided_ok (some code) h = (cc, sym (ap (λ out. out.1) h))
  provided_ok none h = cc

  abbrev pub ClientPinned : Option (List ℕ) → World → Disk → Type 0
  ClientPinned provider w d =
      (code : List ℕ) × (started : c.Spake2 × List ℕ) × (provider ≡ some code)
      × (start_client c code ≡ ok started)
      × Pinned c hex started.0 Message.pair_spake_a w d

  -- Whatever the server sends, the client's pin file and temporary file are left alone, or the server
  -- sent an element from which the session of the entered code derives a key, and a certificate with
  -- its tag under that key, and what was done to the files is a store of the hash of that certificate.
  pub run_client_pairing_flow-Pinned :
      (provider : Option (List ℕ)) (cert : List ℕ) (w : World)
      → ((run_client_pairing_flow c hex provider cert w).1.disk ≡ w.disk)
        ⊎ ClientPinned provider w (run_client_pairing_flow c hex provider cert w).1.disk
  unfolding run_client_pairing_flow
  run_client_pairing_flow-Pinned provider cert w =
      let P : Disk → Type 0 = λ d. (d ≡ w.disk) ⊎ ClientPinned provider w d in
      after-Keeps P (provided c hex provider) _ w (provided-Keeps provider) (inl refl) λ code w₁ e₁.
        let (typed, s₁) = provided_ok provider e₁ in
        after-Keeps P receive _ w₁ receive-Keeps (inl (ap (λ w. w.disk) s₁)) λ m w₂ e₂.
          let got = subst (λ v. Received m v w₂) s₁ (receive-Received e₂) in
          after-Keeps P (take_spake_a m) _ w₂ (take_spake_a-Keeps m) (inl got.disk) λ msg_a w₃ e₃.
            let (is, s₃) = take_spake_a_ok m e₃ in
            let came = subst (λ a. Received a w w₃) is (Received-trans_still got s₃) in
            after-Keeps P (lift (start_client c code)) _ w₃ (lift-Keeps _) (inl came.disk)
              λ started w₄ e₄.
                let (start, s₄) = lift_ok (start_client c code) e₄ in
                elim (client_handshake-Pinned started.0 started.1 msg_a cert
                  (Received-trans_still came s₄)) [
                    | inl kept ↦ inl kept
                    | inr pinned ↦ inr (code, started, typed, start, pinned)
                  ]
