-- ===== src/Pairing/Flow/Honest/Unconfirmed.antt =====
-- What becomes of a pairing that the peer does not confirm, after it has shown its certificate.
use kmwarp.Base.{ℕ, ◌≡◌, ◌≢◌, refl, ap, ◌∙◌, List, [], ◌∷◌, ok, err, arith}
use kmwarp.Wire.{Message}
use kmwarp.Wire.Connection.Delivery.{IsSendable}
use kmwarp.Pairing.{Crypto, pin_hash_of}
use kmwarp.Pairing.Pins.{Hex, store}
use kmwarp.Pairing.Flow.{
  World, FlowError, receive, send, take_accepted, rejected, unexpected_frame, pair_accepted,
  store_pin, exchange_certs, exchange_and_pin, confirm,
}
use kmwarp.Pairing.Flow.Steps.{after-run}
use kmwarp.Pairing.Flow.Honest.{
  put, Ready, send_frame, receive_frame, Ready-put, certificate, exchange_certs_honest,
  store_pin_ok,
}

-- What step 8 says of a frame that is no acceptance.
abbrev pub refusal : Message → FlowError
refusal (Message.pair_rejected reason_code) = rejected reason_code
refusal m = unexpected_frame pair_accepted

take_accepted-refusal :
    (m : Message) (w : World) → m ≢ Message.pair_accepted → take_accepted m w ≡ (err (refusal m), w)
unfolding take_accepted
take_accepted-refusal Message.pair_accepted w no_ = absurd (no_ refl)
take_accepted-refusal (Message.pair_rejected r) w no_ = refl
take_accepted-refusal m w no_ = refl

module _ (c : Crypto) (hex : Hex) where
  confirm-refusal :
      (m : Message) (w : World)
      → Ready (m ∷ []) 1 w
      → m ≢ Message.pair_accepted
      → IsSendable Message.pair_accepted
      → ((confirm c hex w).0 ≡ err (refusal m)) × ((confirm c hex w).1.disk ≡ w.disk)
  unfolding confirm
  confirm-refusal m w ready other good =
      let a = Message.pair_accepted in
      let w₁ : World = record w { writer = put a w.writer } in
      let (r, got, next) = receive_frame m [] 0 w₁ (Ready-put a ready) in
      let run : confirm c hex w ≡ (err (refusal m), record w₁ { reader = r }) =
        after-run (send a) _ w (send_frame a w good (let room = ready.room in omega arith))
          (after-run receive _ w₁ got (take_accepted-refusal m (record w₁ { reader = r }) other)) in
      (ap (λ out. out.0) run, ap (λ out. out.1.disk) run)

  -- A peer whose certificate was accepted and that answers with any frame but `PairAccepted` makes the
  -- flow of either side fail with that answer, and its pin has been stored all the same.
  pub exchange_and_pin_unconfirmed :
      (cert peer key : List ℕ) (m : Message) (w : World)
      → Ready (certificate c hex key peer ∷ m ∷ []) 2 w
      → m ≢ Message.pair_accepted
      → IsSendable (certificate c hex key cert)
      → (store hex (pin_hash_of c peer) w.disk).0 ≡ ok tt
      → ((exchange_and_pin c hex cert key w).0 ≡ err (refusal m))
        × ((exchange_and_pin c hex cert key w).1.disk ≡ (store hex (pin_hash_of c peer) w.disk).1)
  unfolding exchange_and_pin
  exchange_and_pin_unconfirmed cert peer key m w ready other good stored =
      let (r, exchanged, next) =
        exchange_certs_honest c hex cert peer key (m ∷ []) 1 w ready good in
      let w₁ : World = record w {
        reader = r;
        writer = put (certificate c hex key cert) w.writer;
      } in
      let w₂ : World = record w₁ { disk = (store hex (pin_hash_of c peer) w.disk).1 } in
      let (failed, disk) =
        confirm-refusal m w₂
          (record { live = next.live; left = next.left; good = next.good; room = next.room }) other
          (tt, omega arith) in
      let run : exchange_and_pin c hex cert key w ≡ confirm c hex w₂ =
        after-run (exchange_certs c hex cert key) _ w exchanged (
          after-run (store_pin hex (pin_hash_of c peer)) _ w₁
            (store_pin_ok c hex (pin_hash_of c peer) w₁ stored) refl) in
      (ap (λ out. out.0) run ∙ failed, ap (λ out. out.1.disk) run ∙ disk)
