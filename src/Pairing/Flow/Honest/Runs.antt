-- ===== src/Pairing/Flow/Honest/Runs.antt =====
-- Two honest machines, one code: each flow ends well, whatever the cut of the byte stream, and the two
-- byte streams are each other's.
use kmwarp.Base.{
  ℕ, ◌≡◌, refl, sym, ap, ◌∙◌, true, List, [], ◌∷◌, ◌++◌, Option, some, Result, ok, err, length, All,
  arith,
}
use kmwarp.Base.{bind_result}
use kmwarp.Pairing.Codes.{check_code-generate_code}
use mathlib.Core.Path.{subst}
use kmwarp.Wire.{Message}
use kmwarp.Wire.Connection.Delivery.{IsSendable, pending}
use kmwarp.Pairing.{
  id_server, id_client, shared_key_len, Crypto, TlsError, pin_hash_of, finish_pairing,
  as_shared_key, start_server, start_client, generate_code,
}
use kmwarp.Pairing.Pins.{Disk, Hex, store, load, pin_hash_len, load-store}
use kmwarp.Pairing.Flow.{
  World, after, receive, send, take_spake_a, take_spake_b, derive, lift, exchange_and_pin,
  server_handshake, client_handshake, run_server_pairing_flow, run_client_pairing_flow,
}
use kmwarp.Pairing.Flow.Steps.{after-run}
use kmwarp.Pairing.Flow.Honest.{
  put, Ready, send_frame, receive_frame, Ready-put, Pairs, Pairs-before, Pairs-read, certificate,
  server_messages, client_messages, exchange_and_pin_honest,
}

module _ (c : Crypto) (hex : Hex) where
  server_handshake_honest :
      (session : c.Spake2) (msg_a msg_b key cert peer : List ℕ) (w : World)
      → finish_pairing c session msg_b ≡ ok key
      → Ready (client_messages c hex msg_b key peer) 3 w
      → All IsSendable (server_messages c hex msg_a key cert)
      → (store hex (pin_hash_of c peer) w.disk).0 ≡ ok tt
      → Pairs c hex
          (server_handshake c hex (session, msg_a) cert w)
          w
          (server_messages c hex msg_a key cert)
          peer
  unfolding server_handshake take_spake_b derive
  server_handshake_honest session msg_a msg_b key cert peer w derived ready good stored =
      let m = Message.pair_spake_a msg_a in
      let w₁ : World = record w { writer = put m w.writer } in
      let (r, got, next) = receive_frame (Message.pair_spake_b msg_b) _ 2 w₁ (Ready-put m ready) in
      let run =
        after-run (send m) _ w (send_frame m w good.0 (let room = ready.room in omega arith)) (
          after-run receive _ w₁ got (
            ap
              (λ k. after (derive c hex k (record w₁ { reader = r })) (exchange_and_pin c hex cert))
              derived)) in
      subst (λ out. Pairs c hex out w (server_messages c hex msg_a key cert) peer) (sym run)
        (Pairs-before c hex m refl refl (
          exchange_and_pin_honest c hex cert peer key (record w₁ { reader = r }) next good.1.0
            stored))

  client_handshake_honest :
      (session : c.Spake2) (msg_b msg_a key cert peer : List ℕ) (w : World)
      → finish_pairing c session msg_a ≡ ok key
      → Ready (certificate c hex key peer ∷ Message.pair_accepted ∷ []) 3 w
      → All IsSendable (client_messages c hex msg_b key cert)
      → (store hex (pin_hash_of c peer) w.disk).0 ≡ ok tt
      → Pairs c hex
          (client_handshake c hex (session, msg_b) msg_a cert w)
          w
          (client_messages c hex msg_b key cert)
          peer
  unfolding client_handshake derive
  client_handshake_honest session msg_b msg_a key cert peer w derived ready good stored =
      let m = Message.pair_spake_b msg_b in
      let w₁ : World = record w { writer = put m w.writer } in
      let run =
        after-run (send m) _ w (send_frame m w good.0 (let room = ready.room in omega arith))
          (ap (λ k. after (derive c hex k w₁) (exchange_and_pin c hex cert)) derived) in
      subst (λ out. Pairs c hex out w (client_messages c hex msg_b key cert) peer) (sym run)
        (Pairs-before c hex m refl refl
          (exchange_and_pin_honest c hex cert peer key w₁ (Ready-put m ready) good.1.0 stored))

  pub run_server_pairing_flow_honest :
      (entropy : Option (List ℕ)) (code : List ℕ) (session : c.Spake2)
      (msg_a msg_b key cert peer : List ℕ) (w : World)
      → generate_code entropy ≡ ok code
      → start_server c code ≡ ok (session, msg_a)
      → finish_pairing c session msg_b ≡ ok key
      → Ready (client_messages c hex msg_b key peer) 3 w
      → All IsSendable (server_messages c hex msg_a key cert)
      → (store hex (pin_hash_of c peer) w.disk).0 ≡ ok tt
      → Pairs c hex
          (run_server_pairing_flow c hex entropy true cert w)
          w
          (server_messages c hex msg_a key cert)
          peer
  unfolding run_server_pairing_flow
  run_server_pairing_flow_honest entropy code session msg_a msg_b key cert peer w generated started
        derived ready good stored =
      let run : run_server_pairing_flow c hex entropy true cert w
          ≡ server_handshake c hex (session, msg_a) cert w =
        after-run (lift (generate_code entropy)) _ w (ap (λ r. lift r w) generated)
          (after-run (lift (start_server c code)) _ w (ap (λ r. lift r w) started) refl) in
      subst (λ out. Pairs c hex out w (server_messages c hex msg_a key cert) peer) (sym run)
        (server_handshake_honest session msg_a msg_b key cert peer w derived ready good stored)

  pub run_client_pairing_flow_honest :
      (code : List ℕ) (session : c.Spake2) (msg_b msg_a key cert peer : List ℕ) (w : World)
      → start_client c code ≡ ok (session, msg_b)
      → finish_pairing c session msg_a ≡ ok key
      → Ready (server_messages c hex msg_a key peer) 3 w
      → All IsSendable (client_messages c hex msg_b key cert)
      → (store hex (pin_hash_of c peer) w.disk).0 ≡ ok tt
      → Pairs c hex
          (run_client_pairing_flow c hex (some code) cert w)
          w
          (client_messages c hex msg_b key cert)
          peer
  unfolding run_client_pairing_flow take_spake_a
  run_client_pairing_flow_honest code session msg_b msg_a key cert peer w started derived ready good
        stored =
      let (r, got, next) = receive_frame (Message.pair_spake_a msg_a) _ 3 w ready in
      let w₁ : World = record w { reader = r } in
      let run : run_client_pairing_flow c hex (some code) cert w
          ≡ client_handshake c hex (session, msg_b) msg_a cert w₁ =
        after-run receive _ w got
          (after-run (lift (start_client c code)) _ w₁ (ap (λ r. lift r w₁) started) refl) in
      subst (λ out. Pairs c hex out w (client_messages c hex msg_b key cert) peer) (sym run)
        (Pairs-read c hex
          (client_handshake_honest session msg_b msg_a key cert peer w₁ derived next good stored))

  finish_ok :
      (session : c.Spake2) (msg : List ℕ) {key : List ℕ}
      → c.finish session msg ≡ some key
      → length key ≡ shared_key_len
      → finish_pairing c session msg ≡ ok key
  unfolding finish_pairing
  finish_ok session msg h len = ap as_shared_key h ∙ rw len

  loads :
      (peer : List ℕ) (d : Disk)
      → length (pin_hash_of c peer) ≡ pin_hash_len
      → (store hex (pin_hash_of c peer) d).0 ≡ ok tt
      → load hex (store hex (pin_hash_of c peer) d).1 ≡ ok (some (pin_hash_of c peer))
  loads peer d len stored =
      load-store hex (pin_hash_of c peer) d len
      ∙ ap
          (λ r. elim r as (λ _. Result (Option (List ℕ)) TlsError) [
            | ok _ ↦ ok (some (pin_hash_of c peer))
            | err _ ↦ load hex d
          ])
          stored

  -- Two machines with the code that the server drew, whose SPAKE2 sessions derive one 32-byte key, with
  -- sockets that last and disks that can be written, each reading the three frames of the other in any
  -- nonempty reads: both flows end well, each writes exactly the three frames that the other reads, and
  -- each loads the hash of the other's certificate as its pin, hashes being 32 bytes long.
  pub pairing_completes :
      (buf code key server_cert client_cert : List ℕ) (ws wc : World)
      → ((bs : List ℕ) → length (pin_hash_of c bs) ≡ pin_hash_len)
      → generate_code (some buf) ≡ ok code
      → length key ≡ shared_key_len
      → let a = c.start_a code id_server id_client in
        let b = c.start_b code id_server id_client in
        c.finish a.0 b.1 ≡ some key
        → c.finish b.0 a.1 ≡ some key
        → Ready (client_messages c hex b.1 key client_cert) 3 ws
        → Ready (server_messages c hex a.1 key server_cert) 3 wc
        → (store hex (pin_hash_of c client_cert) ws.disk).0 ≡ ok tt
        → (store hex (pin_hash_of c server_cert) wc.disk).0 ≡ ok tt
        → let server = run_server_pairing_flow c hex (some buf) true server_cert ws in
          let client = run_client_pairing_flow c hex (some code) client_cert wc in
          (server.0 ≡ ok tt)
          × (client.0 ≡ ok tt)
          × (server.1.writer.written ≡ ws.writer.written ++ pending wc.reader)
          × (client.1.writer.written ≡ wc.writer.written ++ pending ws.reader)
          × (load hex server.1.disk ≡ ok (some (pin_hash_of c client_cert)))
          × (load hex client.1.disk ≡ ok (some (pin_hash_of c server_cert)))
  unfolding start_server start_client
  pairing_completes buf code key server_cert client_cert ws wc hashes drew len ka kb rs rc ss sc =
      let a = c.start_a code id_server id_client in
      let b = c.start_b code id_server id_client in
      let passed = check_code-generate_code buf drew in
      let server =
        run_server_pairing_flow_honest (some buf) code a.0 a.1 b.1 key server_cert client_cert ws
          drew (ap (λ r. bind_result r (λ _. ok a)) passed) (finish_ok a.0 b.1 ka len) rs rc.good
          ss in
      let client =
        run_client_pairing_flow_honest code b.0 b.1 a.1 key client_cert server_cert wc
          (ap (λ r. bind_result r (λ _. ok b)) passed) (finish_ok b.0 a.1 kb len) rc rs.good sc in
      (
        server.done,
        client.done,
        server.written ∙ ap (λ bs. ws.writer.written ++ bs) (sym rc.left),
        client.written ∙ ap (λ bs. wc.writer.written ++ bs) (sym rs.left),
        ap (load hex) server.disk ∙ loads client_cert ws.disk (hashes client_cert) ss,
        ap (load hex) client.disk ∙ loads server_cert wc.disk (hashes server_cert) sc,
      )
