-- ===== src/Session/Pinned.antt =====
-- No session without the pinned peer: a session begins under the pin on disk, or behind a pairing.
use kmwarp.Base.{
  ℕ, ◌≡◌, refl, ◌⊎◌, inl, inr, Bool, true, false, List, Option, none, some, Result, ok, err,
  if◌then◌else◌, bytes_eq_iff,
}
use kmwarp.Pairing.{Crypto, TlsError, pin_hash_of}
use kmwarp.Pairing.Pins.{Hex, load}
use kmwarp.Pairing.Flow.{World, Flow, FlowError, run_server_pairing_flow, run_client_pairing_flow}
use kmwarp.Session.{
  Tls, Outcome, begun, closed, accepts_cert, unless_failed, over_tls, with_pin, handle_peer,
  run_one_session, greet_client, greet_server,
}

module _ (c : Crypto) (hex : Hex) where
  -- Under a pin: the handshake completed with a certificate of that hash. Without one: the pairing flow
  -- of this connection ended well.
  abbrev pub Admitted : Tls → Flow (Unit {0}) → World → Type 0
  Admitted tls pairing_flow w =
      ((pin : List ℕ) × (cert : List ℕ) × (load hex w.disk ≡ ok (some pin))
        × (tls.handshake (accepts_cert c hex (some pin)) ≡ some cert)
        × (pin_hash_of c cert ≡ pin))
      ⊎ ((load hex w.disk ≡ ok none) × ((pairing_flow w).0 ≡ ok tt))

  unless_failed-begun :
      (p : Result (Unit {0}) FlowError × World) (greet : Flow Outcome)
      → (unless_failed p greet).0 ≡ begun
      → p.0 ≡ ok tt
  unless_failed-begun (ok _, w) greet h = refl
  unless_failed-begun (err e, w) greet h = cc

  pub accepts_cert-pin :
      (pin cert : List ℕ) → accepts_cert c hex (some pin) cert ≡ true → pin_hash_of c cert ≡ pin
  unfolding accepts_cert
  accepts_cert-pin pin cert h = (bytes_eq_iff _ _).0 h

  with_pin-Admitted :
      (tls : Tls) (loaded : Result (Option (List ℕ)) TlsError) (pairing_flow : Flow (Unit {0}))
      (greet : Flow Outcome) (w : World)
      → load hex w.disk ≡ loaded
      → (with_pin c hex tls loaded pairing_flow greet w).0 ≡ begun
      → Admitted tls pairing_flow w
  with_pin-Admitted tls (err e) pairing_flow greet w l h = cc
  with_pin-Admitted tls (ok pinned) pairing_flow greet w l h = configured tls.config_ok pinned l h
    where
      connected :
          (shaken : Option (List ℕ)) (pinned : Option (List ℕ))
          → tls.handshake (accepts_cert c hex pinned) ≡ shaken
          → load hex w.disk ≡ ok pinned
          → (over_tls shaken pinned pairing_flow greet w).0 ≡ begun
          → Admitted tls pairing_flow w
      connected none pinned e l h = cc
      connected (some cert) (some pin) e l h =
          inl (pin, cert, l, e, accepts_cert-pin pin cert (tls.verified _ cert e))
      connected (some cert) none e l h = inr (l, unless_failed-begun (pairing_flow w) greet h)

      configured :
          (b : Bool) (pinned : Option (List ℕ))
          → load hex w.disk ≡ ok pinned
          → (if b
              then over_tls (tls.handshake (accepts_cert c hex pinned)) pinned pairing_flow greet w
              else (closed, w)).0
            ≡ begun
          → Admitted tls pairing_flow w
      configured true pinned l h =
          connected (tls.handshake (accepts_cert c hex pinned)) pinned refl l h
      configured false pinned l h = cc

  -- A session of the server begins only over a TLS connection whose certificate has the hash that is
  -- loaded as the pin, or, where no pin is loaded, behind a pairing on that connection that ended well.
  pub handle_peer-Admitted :
      (tls : Tls) (entropy : Option (List ℕ)) (shown : Bool) (cert_der : List ℕ) (width height : ℕ)
      (w : World)
      → (handle_peer c hex tls entropy shown cert_der width height w).0 ≡ begun
      → Admitted tls (run_server_pairing_flow c hex entropy shown cert_der) w
  unfolding handle_peer
  handle_peer-Admitted tls entropy shown cert_der width height w h =
      with_pin-Admitted tls (load hex w.disk) (run_server_pairing_flow c hex entropy shown cert_der)
        (greet_client width height) w refl h

  -- A session of the client begins only over a TLS connection whose certificate has the hash that is
  -- loaded as the pin, or, where no pin is loaded, behind a pairing on that connection that ended well.
  pub run_one_session-Admitted :
      (tls : Tls) (provider : Option (List ℕ)) (has_sink : Bool) (cert_der peer_name : List ℕ)
      (w : World)
      → (run_one_session c hex tls provider has_sink cert_der peer_name w).0 ≡ begun
      → Admitted tls (run_client_pairing_flow c hex provider cert_der) w
  unfolding run_one_session
  run_one_session-Admitted tls provider has_sink cert_der peer_name w h =
      with_pin-Admitted tls (load hex w.disk) (run_client_pairing_flow c hex provider cert_der)
        (greet_server has_sink peer_name) w refl h
