-- ===== src/Session/Begin.antt =====
-- Two paired machines that meet again.
use kmwarp.Base.{
  ℕ, ◌≡◌, refl, sym, ap, ◌∙◌, Bool, true, List, [], ◌∷◌, ◌++◌, Option, some, ok, append-nil,
  bytes_eq_iff,
}
use kmwarp.Wire.{Message}
use kmwarp.Wire.Connection.Delivery.{pending}
use kmwarp.Pairing.{Crypto, pin_hash_of}
use kmwarp.Pairing.Pins.{Hex, load}
use kmwarp.Pairing.Flow.{World, run_server_pairing_flow, run_client_pairing_flow}
use kmwarp.Pairing.Flow.Honest.{Ready}
use kmwarp.Session.{
  Tls, begun, accepts_cert, proto_version, handle_peer, run_one_session, greet_client, greet_server,
}
use kmwarp.Session.Greetings.{with_pin-run, greet_client_honest, greet_server_honest}

-- The library completes a handshake with `cert` whenever the verifier accepts it.
abbrev pub Presents : Tls → List ℕ → Type 0
Presents tls cert =
    (accepts : List ℕ → Bool) → accepts cert ≡ true → tls.handshake accepts ≡ some cert

module _ (c : Crypto) (hex : Hex) where
  accepts_cert_self : (cert : List ℕ) → accepts_cert c hex (some (pin_hash_of c cert)) cert ≡ true
  unfolding accepts_cert
  accepts_cert_self cert = (bytes_eq_iff (pin_hash_of c cert) (pin_hash_of c cert)).1 refl

  -- Two machines that each load the hash of the certificate that the other presents, whatever the code
  -- and the display would be: with sockets that last and a sink, the server reading the client's `Hello`
  -- and the client the server's `HelloAck` in any nonempty reads, both begin the session without a
  -- pairing, and each writes exactly the frame that the other reads.
  pub sessions_begin :
      (ts tc : Tls) (entropy provider : Option (List ℕ)) (shown : Bool)
      (server_cert client_cert peer_name : List ℕ) (width height : ℕ) (ws wc : World)
      → load hex ws.disk ≡ ok (some (pin_hash_of c client_cert))
      → load hex wc.disk ≡ ok (some (pin_hash_of c server_cert))
      → ts.config_ok ≡ true
      → tc.config_ok ≡ true
      → Presents ts client_cert
      → Presents tc server_cert
      → Ready (Message.hello proto_version peer_name ∷ []) 1 ws
      → Ready (Message.hello_ack true width height ∷ []) 1 wc
      → let server = handle_peer c hex ts entropy shown server_cert width height ws in
        let client = run_one_session c hex tc provider true client_cert peer_name wc in
        (server.0 ≡ begun)
        × (client.0 ≡ begun)
        × (server.1.writer.written ≡ ws.writer.written ++ pending wc.reader)
        × (client.1.writer.written ≡ wc.writer.written ++ pending ws.reader)
  unfolding handle_peer run_one_session
  sessions_begin ts tc entropy provider shown server_cert client_cert peer_name width height ws wc
        ls lc ks kc ps pc rs rc =
      let server =
        with_pin-run c hex ts (some (pin_hash_of c client_cert))
          (run_server_pairing_flow c hex entropy shown server_cert) (greet_client width height) ws
          ls ks (ps _ (accepts_cert_self client_cert)) in
      let client =
        with_pin-run c hex tc (some (pin_hash_of c server_cert))
          (run_client_pairing_flow c hex provider client_cert) (greet_server true peer_name) wc lc
          kc (pc _ (accepts_cert_self server_cert)) in
      let (begun_s, wrote_s) =
        greet_client_honest width height proto_version peer_name ws rs rc.good.0 in
      let (begun_c, wrote_c) = greet_server_honest width height peer_name wc rc rs.good.0 in
      (
        ap (λ out. out.0) server ∙ begun_s,
        ap (λ out. out.0) client ∙ begun_c,
        ap (λ out. out.1.writer.written) server
            ∙ wrote_s
            ∙ ap (λ bs. ws.writer.written ++ bs) (sym (rc.left ∙ append-nil _)),
        ap (λ out. out.1.writer.written) client
            ∙ wrote_c
            ∙ ap (λ bs. wc.writer.written ++ bs) (sym (rs.left ∙ append-nil _)),
      )
