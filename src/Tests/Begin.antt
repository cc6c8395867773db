-- ===== src/Tests/Begin.antt =====
-- The start of a session at concrete inputs.
use kmwarp.Base.{
  ℕ, ◌≡◌, refl, ap, sym, ◌∙◌, Bool, true, false, List, [], ◌∷◌, none, some, ok, if◌then◌else◌,
  arith, append-nil, is_utf8, bytes_eq_iff,
}
use kmwarp.Wire.{Message}
use kmwarp.Wire.Connection.{bytes}
use kmwarp.Wire.Connection.Delivery.{frames, pending}
use kmwarp.Pairing.{pin_hash_of}
use kmwarp.Pairing.Pins.{Disk, load, store, load-store}
use kmwarp.Pairing.Flow.{World, run_server_pairing_flow, run_client_pairing_flow}
use kmwarp.Pairing.Flow.Honest.{Ready}
use kmwarp.Session.{Tls, begun, accepts_cert, handle_peer, run_one_session}
use kmwarp.Session.Pinned.{Admitted, handle_peer-Admitted, run_one_session-Admitted}
use kmwarp.Session.Begin.{Presents, sessions_begin}
use kmwarp.Session.Backoff.{connect_with_backoff, failures, connect_with_backoff-failures}
use kmwarp.Server.Tasks.{reader_task}
use kmwarp.Server.Tasks.Routes.{accepted_by, reader_task-routes}
use kmwarp.Tests.Sessions.{drained}
use kmwarp.Tests.Pairing.{toy_crypto, toy_hex, healthy, server_cert, client_cert}

pub toy_verified :
    (peer : List ℕ) (accepts : List ℕ → Bool) (cert : List ℕ)
    → (if accepts peer then some peer else none) ≡ some cert
    → accepts cert ≡ true
toy_verified peer accepts cert h = go (accepts peer) refl h
  where
    go :
        (b : Bool)
        → accepts peer ≡ b
        → (if b then some peer else none) ≡ some cert
        → accepts cert ≡ true
    go true e h = let same : peer ≡ cert = cc in ap accepts (sym same) ∙ e
    go false e h = cc

-- A peer with this certificate.
abbrev pub toy_tls : List ℕ → Tls
toy_tls peer = record {
  config_ok = true;
  handshake = λ accepts. if accepts peer then some peer else none;
  verified = toy_verified peer;
}

-- A disk that keeps the pin of `peer`.
abbrev pub pinned : List ℕ → Disk
pinned peer = (store toy_hex (pin_hash_of toy_crypto peer) healthy).1

abbrev known : List ℕ → List Message → World
known peer ms = record {
  reader = record { read_buf = []; reads = bytes (frames ms) ∷ [] };
  writer = record { written = []; alive = 2 };
  disk = pinned peer;
}

abbrev name : List ℕ
name = b'p' ∷ b'c' ∷ []

abbrev server_world : World
server_world = known client_cert (Message.hello 1 name ∷ [])

abbrev client_world : World
client_world = known server_cert (Message.hello_ack true 1920 1080 ∷ [])

pub loaded :
    (peer : List ℕ) (ms : List Message)
    → load toy_hex (known peer ms).disk ≡ ok (some (pin_hash_of toy_crypto peer))
unfolding store pin_hash_of
loaded peer ms = load-store toy_hex (pin_hash_of toy_crypto peer) healthy refl

server_world-Ready : Ready (Message.hello 1 name ∷ []) 1 server_world
unfolding is_utf8
server_world-Ready = record {
  live = omega arith;
  left = append-nil _;
  good = (((omega arith, omega arith, refl), omega arith), tt);
  room = omega arith;
}

client_world-Ready : Ready (Message.hello_ack true 1920 1080 ∷ []) 1 client_world
client_world-Ready = record {
  live = omega arith;
  left = append-nil _;
  good = omega arith;
  room = omega arith;
}

presents : (peer : List ℕ) → Presents (toy_tls peer) peer
presents peer accepts h = ap (λ b. if b then some peer else none) h

accepts_known :
    (peer : List ℕ)
    → accepts_cert toy_crypto toy_hex (some (pin_hash_of toy_crypto peer)) peer ≡ true
unfolding accepts_cert
accepts_known peer =
    (bytes_eq_iff (pin_hash_of toy_crypto peer) (pin_hash_of toy_crypto peer)).1 refl

sessions_begin_example :
    let server =
      handle_peer toy_crypto toy_hex
        (toy_tls client_cert)
        none
        false
        server_cert
        1920
        1080
        server_world in
    let client =
      run_one_session toy_crypto toy_hex
        (toy_tls server_cert)
        none
        true
        client_cert
        name
        client_world in
    (server.0 ≡ begun)
    × (client.0 ≡ begun)
    × (server.1.writer.written ≡ pending client_world.reader)
    × (client.1.writer.written ≡ pending server_world.reader)
sessions_begin_example =
    sessions_begin toy_crypto toy_hex (toy_tls client_cert) (toy_tls server_cert) none none false
      server_cert client_cert name 1920 1080 server_world client_world
      (loaded client_cert (Message.hello 1 name ∷ []))
      (loaded server_cert (Message.hello_ack true 1920 1080 ∷ [])) refl refl (presents client_cert)
      (presents server_cert) server_world-Ready client_world-Ready

handle_peer-Admitted_example :
    Admitted toy_crypto toy_hex
      (toy_tls client_cert)
      (run_server_pairing_flow toy_crypto toy_hex none false server_cert)
      server_world
handle_peer-Admitted_example =
    handle_peer-Admitted toy_crypto toy_hex (toy_tls client_cert) none false server_cert 1920 1080
      server_world sessions_begin_example.0

run_one_session-Admitted_example :
    Admitted toy_crypto toy_hex
      (toy_tls server_cert)
      (run_client_pairing_flow toy_crypto toy_hex none client_cert)
      client_world
run_one_session-Admitted_example =
    run_one_session-Admitted toy_crypto toy_hex (toy_tls server_cert) none true client_cert name
      client_world sessions_begin_example.1

-- A relay's certificate in place of the client's.

connect_with_backoff-failures_example :
    connect_with_backoff (failures 6 []) ≡ (some 7, 250 ∷ 500 ∷ 1000 ∷ 2000 ∷ 4000 ∷ 5000 ∷ [])
connect_with_backoff-failures_example = connect_with_backoff-failures 6 [] (omega arith)

-- A ping, a release, a clipboard chunk and a heartbeat, then a `Bye` and a frame behind it.
abbrev from_client : List Message
from_client =
    Message.echo_ping 77
    ∷ Message.release_control 300
    ∷ Message.clipboard_text 2 (b'a' ∷ [])
    ∷ Message.heartbeat 0
    ∷ Message.bye 0
    ∷ Message.release_control 301
    ∷ []

reader_task-routes_example :
    let after =
      reader_task drained drained drained from_client
        (record { tx_out = []; brain_tx = some []; clip_in_tx = none; pulses = 0 }) in
    (after.tx_out ≡ Message.echo_pong 77 ∷ [])
    × (accepted_by drained after.brain_tx ≡ Message.release_control 300 ∷ [])
    × (accepted_by drained after.clip_in_tx ≡ [])
    × (after.pulses ≡ 5)
reader_task-routes_example =
    reader_task-routes drained drained drained (λ msg q. refl) (λ msg q. refl) (λ msg q. refl)
      from_client (record { tx_out = []; brain_tx = some []; clip_in_tx = none; pulses = 0 })
