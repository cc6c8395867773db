-- ===== src/Session/Rounds/Impostors.antt =====
-- A machine that has a pin, among peers that do not hold the pinned certificate.
use mathlib.Core.Path.{subst}
use kmwarp.Base.{
  ℕ, ℤ, ◌≡◌, ◌≢◌, refl, sym, ◌∙◌, Bool, Bool-cases, inl, inr, List, [], ◌∷◌, ◌++◌, Option,
  Option-cases, none, some, Result, ok, All, append_assoc, append-nil, map,
}
use kmwarp.Channel.{Sender}
use kmwarp.Pairing.{Crypto, TlsError, pin_hash_of}
use kmwarp.Pairing.Pins.{Hex, load}
use kmwarp.Pairing.Flow.{World, Flow, run_server_pairing_flow, run_client_pairing_flow}
use kmwarp.Server.{ServerStatus, publish_status}
use kmwarp.Session.{
  Tls, Outcome, closed, accepts_cert, over_tls, with_pin, run_one_session, handle_peer,
  greet_client, greet_server,
}
use kmwarp.Session.Pinned.{accepts_cert-pin}
use kmwarp.Session.Backoff.{connect_with_backoff}
use kmwarp.Session.Rounds.{Turn, ClientRun, Peer, ServerRun, run_client, run_server}

module _ (c : Crypto) (hex : Hex) (pin : List ℕ) where
  -- Whatever a verifier accepts, the peer presents no certificate with the hash `pin`.
  abbrev pub IsImpostor : Tls → Type 0
  IsImpostor tls =
      (accepts : List ℕ → Bool) (cert : List ℕ)
      → tls.handshake accepts ≡ some cert
      → pin_hash_of c cert ≢ pin

  over_tls_impostor :
      (tls : Tls) (shaken : Option (List ℕ)) (pairing_flow : Flow (Unit {0})) (greet : Flow Outcome)
      (w : World)
      → IsImpostor tls
      → tls.handshake (accepts_cert c hex (some pin)) ≡ shaken
      → over_tls shaken (some pin) pairing_flow greet w ≡ (closed, w)
  over_tls_impostor tls none pairing_flow greet w foreign e = refl
  over_tls_impostor tls (some cert) pairing_flow greet w foreign e = absurd (
      foreign (accepts_cert c hex (some pin)) cert e
        (accepts_cert-pin c hex pin cert (tls.verified (accepts_cert c hex (some pin)) cert e)))

  with_pin_impostor :
      (tls : Tls) (loaded : Result (Option (List ℕ)) TlsError) (pairing_flow : Flow (Unit {0}))
      (greet : Flow Outcome) (w : World)
      → IsImpostor tls
      → loaded ≡ ok (some pin)
      → with_pin c hex tls loaded pairing_flow greet w ≡ (closed, w)
  with_pin_impostor tls loaded pairing_flow greet w foreign pinned =
      rw pinned (elim (Bool-cases tls.config_ok) [
        | inl good ↦ rw good (over_tls_impostor tls _ pairing_flow greet w foreign refl)
        | inr bad ↦ rw bad refl
      ])

  module _ (cert_der : List ℕ) where
    -- Among peers that do not hold the pinned certificate, however many there are: every connection to
    -- the server is closed before its session, and the pin file and the temporary file are as before.
    pub run_server_impostors :
        (local_addr : List ℕ) (width height : ℕ) (peers : List Peer) (run : ServerRun)
        → load hex run.disk ≡ ok (some pin)
        → All (λ peer. IsImpostor peer.tls) peers
        → let after = run_server c hex cert_der local_addr width height peers run in
          (after.disk ≡ run.disk) × (after.outcomes ≡ run.outcomes ++ map (λ peer. closed) peers)
    unfolding run_server handle_peer
    run_server_impostors local_addr width height [] run pinned foreign =
        (refl, sym (append-nil run.outcomes))
    run_server_impostors local_addr width height (peer ∷ peers) run pinned (first, others) =
        let shut =
          with_pin_impostor peer.tls (load hex run.disk)
            (run_server_pairing_flow c hex peer.entropy peer.shown cert_der)
            (greet_client width height)
            (record { reader = peer.reader; writer = peer.writer; disk = run.disk }) first pinned in
        let later =
          run_server_impostors local_addr width height peers
            (record {
              disk = run.disk;
              status = publish_status run.status (ServerStatus.listening local_addr);
              outcomes = run.outcomes ++ (closed ∷ []);
            })
            pinned others in
        subst
          (λ r.
            let after = run_server c hex cert_der local_addr width height peers (record {
              disk = r.1.disk;
              status = publish_status run.status (ServerStatus.listening local_addr);
              outcomes = run.outcomes ++ (r.0 ∷ []);
            }) in
            (after.disk ≡ run.disk)
            × (after.outcomes ≡ run.outcomes ++ map (λ peer'. closed) (peer ∷ peers)))
          (sym shut)
          (later.0, later.1 ∙ append_assoc run.outcomes (closed ∷ []) (map (λ peer'. closed) peers))

    module _ {Q : Type 0} (tx : Sender Q) (is_closed : Q → Bool) (hash : List ℕ → List ℕ)
        (write_ok : List ℕ → Bool) (safe_warp_x : ℤ) (connect peer_name : List ℕ) where
      -- Among servers that do not hold the pinned certificate, however many turns there are: no session
      -- of the client begins, none makes it give up, and the pin file and the temporary file are as
      -- before.
      pub run_client_impostors :
          {E : Type 0} (turns : List (Turn Q E)) (run : ClientRun Q)
          → load hex run.disk ≡ ok (some pin)
          → All (λ turn. IsImpostor turn.tls) turns
          → let (after, ended) =
              run_client c hex cert_der tx is_closed hash write_ok safe_warp_x connect peer_name
                turns run in
            (after.disk ≡ run.disk) × (after.sessions ≡ run.sessions) × (ended ≡ none)
      unfolding run_client run_one_session
      run_client_impostors [] run pinned foreign = (refl, refl, refl)
      run_client_impostors (turn ∷ turns) run pinned (first, others) =
          let shut =
            with_pin_impostor turn.tls (load hex run.disk)
              (run_client_pairing_flow c hex turn.provider cert_der)
              (greet_server turn.has_sink peer_name)
              (record { reader = turn.reader; writer = turn.writer; disk = run.disk }) first
              pinned in
          elim (Option-cases (connect_with_backoff turn.attempts).0) [
            | inl waits ↦ rw waits (refl, refl, refl)
            | inr (attempt, connected) ↦
                rw (connected, shut) (run_client_impostors turns _ pinned others)
          ]
