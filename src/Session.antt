-- ===== src/Session.antt =====
-- `handle_peer` of crates/server/src/app.rs, `run_one_session` and `connect_with_backoff` of
-- crates/client/src/app.rs, crates/core/src/tls/verifier.rs and the configurations of both `tls.rs`: from
-- a connection to the start of the tasks of a session. What is published for the user interface is left
-- out.
pub mod Pinned
pub mod Greetings
pub mod Begin
pub mod Backoff
pub mod Rounds
pub mod Identity
use kmwarp.Base.{
  ℕ, Bool, true, false, ◌≡◌, List, [], ◌∷◌, Option, none, some, Result, ok, err, if◌then◌else◌,
  bytes_eq,
}
use kmwarp.Wire.{Message}
use kmwarp.Wire.Connection.{ConnectionError, read_frame, write_frame}
use kmwarp.Pairing.{Crypto, TlsError, pin_hash_of}
use kmwarp.Pairing.Pins.{Hex, load}
use kmwarp.Pairing.Flow.{
  World, Flow, FlowError, ◌>>=◌, ◌>>◌, pure, raise, connection, receive, send,
  run_server_pairing_flow, run_client_pairing_flow,
}

abbrev pub proto_version : ℕ
proto_version = 1

-- The library `rustls` with the certificate and key of this side: whether a configuration can be built
-- from them, and the peer's certificate when a handshake completes, given which certificates the
-- verifier accepts. It documents that the verifier is asked.
pub record Tls : Type 0 where
  pub config_ok : Bool
  pub handshake : (List ℕ → Bool) → Option (List ℕ)
  pub verified :
      (accepts : List ℕ → Bool) (cert : List ℕ)
      → handshake accepts ≡ some cert
      → accepts cert ≡ true

-- How a connection ends before its session, or that the session begins.
pub data Outcome : Type 0 where
  closed handshake_rejected unexpected_handshake_frame : Outcome
  failed : FlowError → Outcome
  begun : Outcome

abbrev pub finish : Result Outcome FlowError × World → Outcome × World
finish (ok out, w) = (out, w)
finish (err e, w) = (failed e, w)

unfoldable pub take_hello : ℕ → ℕ → Message → Flow Outcome
take_hello width height (Message.hello version name) = do
  send (Message.hello_ack true width height)
  pure begun
take_hello width height other = pure closed

-- `Hello` in, `HelloAck` out.
unfoldable pub greet_client : ℕ → ℕ → Flow Outcome
greet_client width height = do msg ← receive; take_hello width height msg

-- With no pin the pairing comes first, and its failure closes the connection.
abbrev pub unless_failed : Result (Unit {0}) FlowError × World → Flow Outcome → Outcome × World
unless_failed (ok _, w) greet = finish (greet w)
unless_failed (err e, w) greet = (closed, w)

abbrev pub paired : Option (List ℕ) → Flow (Unit {0}) → Flow Outcome → World → Outcome × World
paired (some pin) pairing_flow greet w = finish (greet w)
paired none pairing_flow greet w = unless_failed (pairing_flow w) greet

abbrev pub over_tls :
    Option (List ℕ) → Option (List ℕ) → Flow (Unit {0}) → Flow Outcome → World → Outcome × World
over_tls (some cert) pinned pairing_flow greet w = paired pinned pairing_flow greet w
over_tls none pinned pairing_flow greet w = (closed, w)

unfoldable pub take_hello_ack : Bool → Message → Flow Outcome
take_hello_ack has_sink (Message.hello_ack accepted width height) =
    if accepted then pure (if has_sink then begun else closed) else pure handshake_rejected
take_hello_ack has_sink other = pure unexpected_handshake_frame

-- `Hello` out, `HelloAck` in; then the sink is built.
unfoldable pub greet_server : Bool → List ℕ → Flow Outcome
greet_server has_sink peer_name = do
  send (Message.hello proto_version peer_name)
  msg ← receive
  take_hello_ack has_sink msg

module _ (c : Crypto) (hex : Hex) where
  unfoldable pub check_pin : (expected_pin end_entity : List ℕ) → Bool
  check_pin expected_pin end_entity = bytes_eq (pin_hash_of c end_entity) expected_pin

  -- The verifier of a configuration: pinned, or permissive while there is no pin.
  unfoldable pub accepts_cert : Option (List ℕ) → List ℕ → Bool
  unfolding check_pin
  accepts_cert (some pin) cert = check_pin pin cert
  accepts_cert none cert = true

  -- The pin is loaded for each connection; a corrupt one refuses it.
  abbrev pub with_pin :
      Tls
      → Result (Option (List ℕ)) TlsError
      → Flow (Unit {0})
      → Flow Outcome
      → World
      → Outcome × World
  with_pin tls (err e) pairing_flow greet w = (closed, w)
  with_pin tls (ok pinned) pairing_flow greet w =
      if tls.config_ok
      then over_tls (tls.handshake (accepts_cert pinned)) pinned pairing_flow greet w
      else (closed, w)

  -- The server, up to the start of the tasks. The random bytes of a code, whether it can be displayed and
  -- the size of the screen are arguments.
  unfoldable pub handle_peer :
      Tls → Option (List ℕ) → Bool → List ℕ → ℕ → ℕ → World → Outcome × World
  handle_peer tls entropy shown cert_der width height w =
      with_pin tls (load hex w.disk) (run_server_pairing_flow c hex entropy shown cert_der)
        (greet_client width height) w

  -- The client, up to the start of the tasks. What the code provider returns, and whether a sink can be
  -- built, are arguments.
  unfoldable pub run_one_session :
      Tls → Option (List ℕ) → Bool → List ℕ → List ℕ → World → Outcome × World
  run_one_session tls provider has_sink cert_der peer_name w =
      with_pin tls (load hex w.disk) (run_client_pairing_flow c hex provider cert_der)
        (greet_server has_sink peer_name) w
