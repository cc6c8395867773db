-- ===== src/Pairing/Flow.antt =====
-- crates/server/src/net/pairing.rs and crates/client/src/net/pairing.rs: the first pairing of two
-- machines, each side over its own connection and its own pin file. Proofs stand in the children.
pub mod Steps
pub mod Decisions
pub mod Safety
pub mod Honest
use kmwarp.Base.{ℕ, Bool, true, false, List, Option, none, some, Result, ok, err, if◌then◌else◌}
use kmwarp.Wire.{Message}
use kmwarp.Wire.Connection.{ConnectionError, FrameReader, FrameWriter, read_frame, write_frame}
use kmwarp.Pairing.{
  Crypto, PairingError, TlsError, hmac_verify_failed, generate_code, start_server, start_client,
  finish_pairing, cert_hmac, cert_hmac_verify, pin_hash_of,
}
use kmwarp.Pairing.RejectCode
use kmwarp.Pairing.Pins.{Disk, Hex, store}

-- The frame that an error text says was expected.
pub data Expected : Type 0 where
  pair_spake_a pair_spake_b pair_cert_exchange pair_accepted : Expected

-- `ServerPairingError` and `ClientPairingError`: `stdout_write` is the server's, `code_provider` the
-- client's, and the others are the same in both.
pub data FlowError : Type 0 where
  connection : ConnectionError → FlowError
  pairing : PairingError → FlowError
  pin_store : TlsError → FlowError
  unexpected_frame : Expected → FlowError
  rejected : ℕ → FlowError
  stdout_write code_provider : FlowError

-- What one side works on: its connection and its disk.
pub record World : Type 0 where
  pub reader : FrameReader
  pub writer : FrameWriter
  pub disk : Disk

-- A step of a flow. What was written stays written when a later step fails.
abbrev pub Flow : Type 0 → Type 0
Flow A = World → Result A FlowError × World

module _ {A : Type 0} where
  abbrev pub pure : A → Flow A
  pure a w = (ok a, w)

  abbrev pub raise : FlowError → Flow A
  raise e w = (err e, w)

-- The `?` operator.
abbrev pub after :
    {A B : Type 0} → Result A FlowError × World → (A → Flow B) → Result B FlowError × World
after (ok a, w) f = f a w
after (err e, w) f = (err e, w)

infixl 5 ◌>>=◌ ◌>>◌
abbrev pub ◌>>=◌ : {A B : Type 0} → Flow A → (A → Flow B) → Flow B
◌>>=◌ m f w = after (m w) f

abbrev pub ◌>>◌ : {B : Type 0} → Flow (Unit {0}) → Flow B → Flow B
m >> k = m >>= λ _. k

-- A result that touches nothing, with its error made one of the flow.
abbrev pub lift : {A : Type 0} → Result A PairingError → Flow A
lift (ok a) w = (ok a, w)
lift (err e) w = (err (pairing e), w)

abbrev pub with_reader :
    Result Message ConnectionError × FrameReader → World → Result Message FlowError × World
with_reader (ok m, r) w = (ok m, record w { reader = r })
with_reader (err e, r) w = (err (connection e), record w { reader = r })

abbrev pub with_writer :
    Result (Unit {0}) ConnectionError × FrameWriter → World → Result (Unit {0}) FlowError × World
with_writer (ok _, wr) w = (ok tt, record w { writer = wr })
with_writer (err e, wr) w = (err (connection e), record w { writer = wr })

abbrev pub with_disk :
    Result (Unit {0}) TlsError × Disk → World → Result (Unit {0}) FlowError × World
with_disk (ok _, d) w = (ok tt, record w { disk = d })
with_disk (err e, d) w = (err (pin_store e), record w { disk = d })

unfoldable pub receive : Flow Message
receive w = with_reader (read_frame w.reader) w

unfoldable pub send : Message → Flow (Unit {0})
send msg w = with_writer (write_frame msg w.writer) w

-- A failure of the send is ignored.
unfoldable pub send_reject : ℕ → Flow (Unit {0})
unfolding send
send_reject reason_code w = (ok tt, (send (Message.pair_rejected reason_code) w).1)

-- What a side does with the frame that it finds where it waits for another.
abbrev pub refuse : {A : Type 0} → Expected → Message → Flow A
refuse expected (Message.pair_rejected reason_code) = raise (rejected reason_code)
refuse expected other = do
  send_reject RejectCode.protocol_violation
  raise (unexpected_frame expected)

unfoldable pub take_spake_a : Message → Flow (List ℕ)
unfolding send_reject
take_spake_a (Message.pair_spake_a msg) = pure msg
take_spake_a other = refuse pair_spake_a other

unfoldable pub take_spake_b : Message → Flow (List ℕ)
unfolding send_reject
take_spake_b (Message.pair_spake_b msg) = pure msg
take_spake_b other = refuse pair_spake_b other

unfoldable pub take_cert_exchange : Message → Flow (List ℕ × List ℕ)
unfolding send_reject
take_cert_exchange (Message.pair_cert_exchange cert_der hmac) = pure (cert_der, hmac)
take_cert_exchange other = refuse pair_cert_exchange other

unfoldable pub take_accepted : Message → Flow (Unit {0})
take_accepted Message.pair_accepted = pure tt
take_accepted (Message.pair_rejected reason_code) = raise (rejected reason_code)
take_accepted other = raise (unexpected_frame pair_accepted)

-- The store is handed the hash; what its `?` passes on is a `TlsError`.
unfoldable pub store_pin : Hex → List ℕ → Flow (Unit {0})
store_pin hex pin w = with_disk (store hex pin w.disk) w

-- The flows take the libraries as `c` and `hex`.
module _ (c : Crypto) (hex : Hex) where
  -- The tag of the peer's certificate is checked under the shared key.
  unfoldable pub verify : List ℕ → List ℕ × List ℕ → Flow (List ℕ)
  unfolding send_reject
  verify shared_key (peer_cert_der, peer_hmac) =
      if cert_hmac_verify (cert_hmac c shared_key peer_cert_der) peer_hmac
      then pure peer_cert_der
      else do send_reject RejectCode.hmac_mismatch; raise (pairing hmac_verify_failed)

  -- Steps 5 and 6: our certificate goes out, the peer's comes in.
  unfoldable pub exchange_certs : List ℕ → List ℕ → Flow (List ℕ)
  exchange_certs cert_der shared_key = do
    send (Message.pair_cert_exchange cert_der (cert_hmac c shared_key cert_der))
    msg ← receive
    peer ← take_cert_exchange msg
    verify shared_key peer

  -- Step 8: both sides say that they accept.
  unfoldable pub confirm : Flow (Unit {0})
  confirm = do send Message.pair_accepted; msg ← receive; take_accepted msg

  -- Steps 5 to 8, which are the same on both sides.
  unfoldable pub exchange_and_pin : List ℕ → List ℕ → Flow (Unit {0})
  exchange_and_pin cert_der shared_key = do
    peer_cert_der ← exchange_certs cert_der shared_key
    store_pin hex (pin_hash_of c peer_cert_der)
    confirm

  -- Step 4, with the rejection that a failure of SPAKE2 sends.
  unfoldable pub derive : Result (List ℕ) PairingError → Flow (List ℕ)
  unfolding send_reject
  derive (ok k) = pure k
  derive (err e) = do send_reject RejectCode.spake2_failure; raise (pairing e)

  abbrev pub display_code : Bool → Flow (Unit {0})
  display_code shown = if shown then pure tt else raise stdout_write

  abbrev pub provided : Option (List ℕ) → Flow (List ℕ)
  provided (some code) = pure code
  provided none = raise code_provider

  -- Steps 2 to 8 of the server, with its session started.
  unfoldable pub server_handshake : c.Spake2 × List ℕ → List ℕ → Flow (Unit {0})
  server_handshake (session, msg_a) cert_der = do
    send (Message.pair_spake_a msg_a)
    msg ← receive
    msg_b ← take_spake_b msg
    shared_key ← derive (finish_pairing c session msg_b)
    exchange_and_pin cert_der shared_key

  -- The random bytes of the code, and whether the terminal takes the display, are arguments.
  unfoldable pub run_server_pairing_flow : Option (List ℕ) → Bool → List ℕ → Flow (Unit {0})
  run_server_pairing_flow entropy shown cert_der = do
    code ← lift (generate_code entropy)
    display_code shown
    started ← lift (start_server c code)
    server_handshake started cert_der

  -- Steps 3 to 8 of the client, with its session started and the server's element.
  unfoldable pub client_handshake : c.Spake2 × List ℕ → List ℕ → List ℕ → Flow (Unit {0})
  client_handshake (session, msg_b) msg_a cert_der = do
    send (Message.pair_spake_b msg_b)
    shared_key ← derive (finish_pairing c session msg_a)
    exchange_and_pin cert_der shared_key

  -- What the operator's code provider returns is an argument.
  unfoldable pub run_client_pairing_flow : Option (List ℕ) → List ℕ → Flow (Unit {0})
  run_client_pairing_flow provider cert_der = do
    code ← provided provider
    msg ← receive
    msg_a ← take_spake_a msg
    started ← lift (start_client c code)
    client_handshake started msg_a cert_der
