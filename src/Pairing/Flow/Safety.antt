-- ===== src/Pairing/Flow/Safety.antt =====
-- Nothing but an authenticated certificate is ever pinned: the steps that both sides share. The flows
-- of the two sides stand in the child modules.
pub mod Server
pub mod Client
use kmwarp.Base.{
  ℕ, zero, suc, ◌≡◌, refl, sym, ap, ◌∙◌, ◌⊎◌, inl, inr, Bool, true, false, List, Option, none, some,
  Result, ok, err, if◌then◌else◌, length,
}
use mathlib.Core.Path.{subst}
use kmwarp.Wire.{Message}
use kmwarp.Wire.Connection.{ConnectionError, FrameReader, read_frame}
use kmwarp.Pairing.{
  Crypto, PairingError, TlsError, cert_hmac, pin_hash_of, finish_pairing, generate_code,
  start_server, start_client,
}
use kmwarp.Pairing.Pins.{Disk, Hex, store, load}
use kmwarp.Pairing.Flow.{
  World, Flow, FlowError, after, receive, send, take_spake_a, take_spake_b, take_cert_exchange,
  take_accepted, verify, derive, store_pin, with_disk, lift, exchange_certs, exchange_and_pin,
  confirm, server_handshake, client_handshake, display_code, provided, run_server_pairing_flow,
  run_client_pairing_flow,
}
use kmwarp.Pairing.Flow.Steps.{
  Keeps, Received, Sent, after-Keeps, after-eq-ok, after-disk, Received-trans_still, Received-Sent,
  >>=-Keeps, Received-trans, receive-Keeps, receive-Received, send-Keeps, send-Sent,
}
use kmwarp.Pairing.Flow.Decisions.{
  take_spake_a-Keeps, take_spake_a_ok, take_spake_b-Keeps, take_spake_b_ok,
  take_cert_exchange-Keeps, take_cert_exchange_ok, take_accepted-Keeps, take_accepted_ok,
  lift-Keeps, lift_ok, derive-Keeps, derive_ok, verify-Keeps, verify_ok,
}

-- The frame that the reader hands over after `n` others.
abbrev pub frame_at : ℕ → FrameReader → Result Message ConnectionError
frame_at zero r = (read_frame r).0
frame_at (suc n) r = frame_at n (read_frame r).1

module _ (c : Crypto) (hex : Hex) where
  -- The peer's frames: its SPAKE2 element, from which the session derives a key, and its certificate
  -- with the tag of that certificate under the key.
  abbrev pub Authenticated : c.Spake2 → (List ℕ → Message) → FrameReader → List ℕ → Type 0
  Authenticated session element r cert_der =
      (msg key : List ℕ) × (frame_at 0 r ≡ ok (element msg))
      × (finish_pairing c session msg ≡ ok key)
      × (frame_at 1 r ≡ ok (Message.pair_cert_exchange cert_der (cert_hmac c key cert_der)))

  exchange_certs-Keeps : (cert key : List ℕ) → Keeps (exchange_certs c hex cert key)
  unfolding exchange_certs
  exchange_certs-Keeps cert key =
      >>=-Keeps (send (Message.pair_cert_exchange cert (cert_hmac c key cert))) _ (send-Keeps _)
        λ _. >>=-Keeps receive _ receive-Keeps λ m.
          >>=-Keeps (take_cert_exchange m) _ (take_cert_exchange-Keeps m) (verify-Keeps c hex key)

  confirm-Keeps : Keeps (confirm c hex)
  unfolding confirm
  confirm-Keeps =
      >>=-Keeps (send Message.pair_accepted) _ (send-Keeps _)
        λ _. >>=-Keeps receive _ receive-Keeps take_accepted-Keeps

  store_pin-store :
      (pin : List ℕ) (w : World) → (store_pin hex pin w).1.disk ≡ (store hex pin w.disk).1
  unfolding store_pin
  store_pin-store pin w = go (store hex pin w.disk)
    where
      go : (p : Result (Unit {0}) TlsError × Disk) → (with_disk p w).1.disk ≡ p.1
      go (ok _, d) = refl
      go (err e, d) = refl

  exchange_certs_ok :
      (cert key : List ℕ) (w : World) {peer : List ℕ} {w' : World}
      → exchange_certs c hex cert key w ≡ (ok peer, w')
      → Received (Message.pair_cert_exchange peer (cert_hmac c key peer)) w w'
  unfolding exchange_certs
  exchange_certs_ok cert key w h =
      let (t, w1, s1, r1) =
        after-eq-ok (send (Message.pair_cert_exchange cert (cert_hmac c key cert)) w) _ h in
      let (m, w2, s2, r2) = after-eq-ok (receive w1) _ r1 in
      let (p, w3, s3, r3) = after-eq-ok (take_cert_exchange m w2) _ r2 in
      let (is, same) = take_cert_exchange_ok m s3 in
      let (tag, still) = verify_ok c hex key p r3 in
      Received-trans (send-Sent _ w s1) (receive-Received s2)
        (is ∙ ap (λ b. Message.pair_cert_exchange b.0 b.1) tag) (still ∙ same)

  -- What the peer must have offered for its certificate to be pinned under this key.
  abbrev Pins : List ℕ → World → Disk → Type 0
  Pins key w d =
      (peer : List ℕ) × (frame_at 0 w.reader
        ≡ ok (Message.pair_cert_exchange peer (cert_hmac c key peer)))
      × (d ≡ (store hex (pin_hash_of c peer) w.disk).1)

  exchange_and_pin-Pins :
      (cert key : List ℕ) (w : World)
      → ((exchange_and_pin c hex cert key w).1.disk ≡ w.disk)
        ⊎ Pins key w (exchange_and_pin c hex cert key w).1.disk
  unfolding exchange_and_pin
  exchange_and_pin-Pins cert key w =
      after-Keeps (λ d. (d ≡ w.disk) ⊎ Pins key w d) (exchange_certs c hex cert key) _ w
        (exchange_certs-Keeps cert key) (inl refl)
        λ peer w' e.
          let got = exchange_certs_ok cert key w e in
          inr (
            peer,
            ap (λ out. out.0) got.frame,
            after-disk (store_pin hex (pin_hash_of c peer) w') _ (λ _. confirm-Keeps)
                ∙ store_pin-store (pin_hash_of c peer) w'
                ∙ ap (λ d. (store hex (pin_hash_of c peer) d).1) got.disk,
          )

  abbrev pub Pinned : c.Spake2 → (List ℕ → Message) → World → Disk → Type 0
  Pinned session element w d =
      (peer : List ℕ) × Authenticated session element w.reader peer
      × (d ≡ (store hex (pin_hash_of c peer) w.disk).1)

  pub exchange_and_pin-Pinned :
      (session : c.Spake2) (element : List ℕ → Message) (cert msg key : List ℕ) {w w' : World}
      → Received (element msg) w w'
      → finish_pairing c session msg ≡ ok key
      → ((exchange_and_pin c hex cert key w').1.disk ≡ w.disk)
        ⊎ Pinned session element w (exchange_and_pin c hex cert key w').1.disk
  exchange_and_pin-Pinned session element cert msg key {w} {w'} got derived =
      elim (exchange_and_pin-Pins cert key w') [
        | inl kept ↦ inl (kept ∙ got.disk)
        | inr (peer, offered, stored) ↦ inr (
          peer,
          (
            msg,
            key,
            ap (λ out. out.0) got.frame,
            derived,
            ap (λ out. (read_frame out.1).0) got.frame ∙ offered,
          ),
          stored ∙ ap (λ d. (store hex (pin_hash_of c peer) d).1) got.disk,
        )
      ]
