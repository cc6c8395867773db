-- ===== src/Pairing/Flow/Honest.antt =====
-- Flows against an honest peer: the steps that both sides share. The runs of the two sides stand in
-- the child module.
pub mod Runs
pub mod Unconfirmed
use kmwarp.Base.{
  ℕ, ◌≡◌, refl, sym, ap, ◌∙◌, ◌≤◌, ◌<◌, ◌+◌, ◌-◌, ◌%◌, suc, zero, Bool, true, false, List, [], ◌∷◌,
  ◌++◌, Option, none, some, Result, ok, err, if◌then◌else◌, length, All, arith, bytes_eq_iff,
  append_assoc,
}
use mathlib.Core.Path.{subst}
use kmwarp.Wire.{Message}
use kmwarp.Wire.Frame.{frame}
use kmwarp.Wire.Connection.{FrameReader, FrameWriter, read_frame, write_frame}
use kmwarp.Wire.Connection.Delivery.{
  IsLive, IsSendable, frames, pending, read_frame_from-frame, write_frame-frame,
}
use kmwarp.Pairing.{
  six_digits, from_le_bytes, id_server, id_client, shared_key_len, Crypto, TlsError, cert_hmac,
  cert_hmac_verify, pin_hash_of, finish_pairing, as_shared_key, start_server, start_client,
  generate_code,
}
use kmwarp.Pairing.Pins.{Disk, Hex, store, load, pin_hash_len, load-store}
use kmwarp.Pairing.Flow.{
  World, Flow, FlowError, after, receive, send, take_spake_a, take_spake_b, take_cert_exchange,
  take_accepted, verify, derive, store_pin, with_disk, with_reader, with_writer, lift,
  exchange_certs, exchange_and_pin, confirm, server_handshake, client_handshake,
  run_server_pairing_flow, run_client_pairing_flow,
}
use kmwarp.Pairing.Flow.Steps.{after-run}

abbrev pub put : Message → FrameWriter → FrameWriter
put m wr = record { written = wr.written ++ frame m; alive = wr.alive - 1 }

-- The frames of `ms` are what the side has still to read, and it can write `n` more.
pub record Ready (ms : List Message) (n : ℕ) (w : World) : Type 0 where
  pub live : All IsLive w.reader.reads
  pub left : pending w.reader ≡ frames ms
  pub good : All IsSendable ms
  pub room : n ≤ w.writer.alive

pub send_frame :
    (m : Message) (w : World)
    → IsSendable m
    → 0 < w.writer.alive
    → send m w ≡ (ok tt, record w { writer = put m w.writer })
unfolding send
send_frame m w good room = ap (λ p. with_writer p w) (write_frame-frame m w.writer good room)

pub receive_frame :
    (m : Message) (ms : List Message) (n : ℕ) (w : World)
    → Ready (m ∷ ms) n w
    → (r : FrameReader) × (receive w ≡ (ok m, record w { reader = r }))
      × Ready ms n (record w { reader = r })
unfolding receive read_frame
receive_frame m ms n w ready =
    let (r, done, live, left) =
      read_frame_from-frame m (frames ms) w.reader.read_buf w.reader.reads ready.good.0 ready.live
        ready.left in
    (
      r,
      ap (λ p. with_reader p w) done,
      record { live = live; left = left; good = ready.good.1; room = ready.room },
    )

pub Ready-put :
    (m : Message) {ms : List Message} {n : ℕ} {w : World}
    → Ready ms (suc n) w
    → Ready ms n (record w { writer = put m w.writer })
Ready-put m {ms} {n} {w} ready = record {
  live = ready.live;
  left = ready.left;
  good = ready.good;
  room = let room = ready.room in omega arith;
}

module _ (c : Crypto) (hex : Hex) where
  verify_self :
      (key cert : List ℕ) (w : World)
      → verify c hex key (cert, cert_hmac c key cert) w ≡ (ok cert, w)
  unfolding verify cert_hmac_verify
  verify_self key cert w = rw ((bytes_eq_iff _ _).1 refl)

  abbrev pub certificate : List ℕ → List ℕ → Message
  certificate key cert = Message.pair_cert_exchange cert (cert_hmac c key cert)

  pub exchange_certs_honest :
      (cert peer key : List ℕ) (ms : List Message) (n : ℕ) (w : World)
      → Ready (certificate key peer ∷ ms) (suc n) w
      → IsSendable (certificate key cert)
      → (r : FrameReader) × (exchange_certs c hex cert key w
          ≡ (ok peer, record w { reader = r; writer = put (certificate key cert) w.writer }))
        × Ready ms n (record w { reader = r; writer = put (certificate key cert) w.writer })
  unfolding exchange_certs take_cert_exchange
  exchange_certs_honest cert peer key ms n w ready good =
      let m = certificate key cert in
      let w₁ : World = record w { writer = put m w.writer } in
      let (r, got, next) = receive_frame (certificate key peer) ms n w₁ (Ready-put m ready) in
      (
        r,
        after-run (send m) _ w (send_frame m w good (let room = ready.room in omega arith))
            (after-run receive _ w₁ got (verify_self key peer _)),
        next,
      )

  confirm_honest :
      (n : ℕ) (w : World)
      → Ready (Message.pair_accepted ∷ []) (suc n) w
      → (r : FrameReader) × (confirm c hex w
          ≡ (ok tt, record w { reader = r; writer = put Message.pair_accepted w.writer }))
  unfolding confirm take_accepted
  confirm_honest n w ready =
      let m = Message.pair_accepted in
      let (r, got, next) =
        receive_frame m [] n (record w { writer = put m w.writer }) (Ready-put m ready) in
      (
        r,
        after-run (send m) _ w (send_frame m w ready.good.0 (let room = ready.room in omega arith))
            (after-run receive _ (record w { writer = put m w.writer }) got refl),
      )

  pub store_pin_ok :
      (pin : List ℕ) (w : World)
      → (store hex pin w.disk).0 ≡ ok tt
      → store_pin hex pin w ≡ (ok tt, record w { disk = (store hex pin w.disk).1 })
  unfolding store_pin
  store_pin_ok pin w h =
      ap (λ p. with_disk p w)
        (let e : store hex pin w.disk ≡ (ok tt, (store hex pin w.disk).1) =
            ap (λ r. (r, (store hex pin w.disk).1)) h in
          e)

  -- A flow that ends well, with what it wrote and the pin that it left.
  pub record Pairs (out : Result (Unit {0}) FlowError × World) (w : World) (ms : List Message)
      (peer : List ℕ) : Type 0 where
    pub done : out.0 ≡ ok tt
    pub written : out.1.writer.written ≡ w.writer.written ++ frames ms
    pub disk : out.1.disk ≡ (store hex (pin_hash_of c peer) w.disk).1

  pub exchange_and_pin_honest :
      (cert peer key : List ℕ) (w : World)
      → Ready (certificate key peer ∷ Message.pair_accepted ∷ []) 2 w
      → IsSendable (certificate key cert)
      → (store hex (pin_hash_of c peer) w.disk).0 ≡ ok tt
      → Pairs
          (exchange_and_pin c hex cert key w)
          w
          (certificate key cert ∷ Message.pair_accepted ∷ [])
          peer
  unfolding exchange_and_pin
  exchange_and_pin_honest cert peer key w ready good stored =
      let (r, exchanged, next) =
        exchange_certs_honest cert peer key (Message.pair_accepted ∷ []) 1 w ready good in
      let w₁ : World = record w { reader = r; writer = put (certificate key cert) w.writer } in
      let w₂ : World = record w₁ { disk = (store hex (pin_hash_of c peer) w.disk).1 } in
      let (r', confirmed) =
        confirm_honest 0 w₂
          (record { live = next.live; left = next.left; good = next.good; room = next.room }) in
      let run : exchange_and_pin c hex cert key w
          ≡ (ok tt, record w₂ { reader = r'; writer = put Message.pair_accepted w₂.writer }) =
        after-run (exchange_certs c hex cert key) _ w exchanged (
          after-run (store_pin hex (pin_hash_of c peer)) _ w₁
            (store_pin_ok (pin_hash_of c peer) w₁ stored) confirmed) in
      record {
        done = ap (λ out. out.0) run;
        written =
            ap (λ out. out.1.writer.written) run
            ∙ append_assoc w.writer.written (frame (certificate key cert))
                (frame Message.pair_accepted);
        disk = ap (λ out. out.1.disk) run;
      }

  -- Writes and reads before the exchange join what it wrote.
  pub Pairs-before :
      (m : Message) {out : Result (Unit {0}) FlowError × World} {w w' : World} {ms : List Message}
      {peer : List ℕ}
      → w'.writer.written ≡ w.writer.written ++ frame m
      → w'.disk ≡ w.disk
      → Pairs out w' ms peer
      → Pairs out w (m ∷ ms) peer
  Pairs-before m {out} {w} {w'} {ms} {peer} wrote kept pairs = record {
    done = pairs.done;
    written =
        pairs.written
        ∙ ap (λ bs. bs ++ frames ms) wrote
        ∙ append_assoc w.writer.written (frame m) (frames ms);
    disk = pairs.disk ∙ ap (λ d. (store hex (pin_hash_of c peer) d).1) kept;
  }

  pub Pairs-read :
      {out : Result (Unit {0}) FlowError × World} {r : FrameReader} {w : World} {ms : List Message}
      {peer : List ℕ}
      → Pairs out (record w { reader = r }) ms peer
      → Pairs out w ms peer
  Pairs-read pairs = record { done = pairs.done; written = pairs.written; disk = pairs.disk }

  abbrev pub server_messages : List ℕ → List ℕ → List ℕ → List Message
  server_messages msg_a key cert =
      Message.pair_spake_a msg_a ∷ certificate key cert ∷ Message.pair_accepted ∷ []

  abbrev pub client_messages : List ℕ → List ℕ → List ℕ → List Message
  client_messages msg_b key cert =
      Message.pair_spake_b msg_b ∷ certificate key cert ∷ Message.pair_accepted ∷ []
