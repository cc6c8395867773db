-- ===== src/Tests/Pairing.antt =====
-- Pairing at concrete inputs: stand-ins for the libraries, and two machines with one code.
use kmwarp.Base.{
  ℕ, ◌≡◌, ◌⊎◌, refl, ap, ◌+◌, ◌-◌, true, List, [], ◌∷◌, map, some, ok, err, All, arith, length,
  append-nil,
}
use kmwarp.Wire.{Message}
use kmwarp.Wire.Connection.{bytes}
use kmwarp.Wire.Connection.Delivery.{frames, pending, IsSendable}
use kmwarp.Base.{◌++◌}
use kmwarp.Pairing.{Crypto, generate_code, check_code, six_digits, pin_hash_of, cert_hmac}
use kmwarp.Pairing.Text.{IsVisible}
use kmwarp.Pairing.Codes.{check_code-generate_code, code_of_line, code_prefix, code_of_line-code}
use kmwarp.Pairing.Pins.{Disk, Hex, absent, done, store, load, load-store}
use kmwarp.Pairing.Flow.{World, exchange_and_pin, run_server_pairing_flow, run_client_pairing_flow}
use kmwarp.Pairing.Flow.Safety.Server.{ServerPinned, run_server_pairing_flow-Pinned}
use kmwarp.Pairing.Flow.Safety.Client.{ClientPinned, run_client_pairing_flow-Pinned}
use kmwarp.Pairing.Flow.Honest.{Ready, certificate, client_messages, server_messages}
use kmwarp.Pairing.Flow.Honest.Runs.{pairing_completes}
use kmwarp.Pairing.Flow.Honest.Unconfirmed.{refusal, exchange_and_pin_unconfirmed}

-- Thirty-two bytes that begin with `n`.
abbrev pub block : ℕ → List ℕ
block n =
    n ∷ 0 ∷ 0 ∷ 0 ∷ 0 ∷ 0 ∷ 0 ∷ 0 ∷ 0 ∷ 0 ∷ 0 ∷ 0 ∷ 0 ∷ 0 ∷ 0 ∷ 0 ∷ 0 ∷ 0 ∷ 0 ∷ 0 ∷ 0 ∷ 0 ∷ 0 ∷ 0
    ∷ 0 ∷ 0 ∷ 0 ∷ 0 ∷ 0 ∷ 0 ∷ 0 ∷ 0 ∷ []

-- A session is its password, and the keys agree when the passwords have one length.
abbrev pub toy_crypto : Crypto
toy_crypto = record {
  Spake2 = List ℕ;
  start_a = λ password id_a id_b. (password, 1 ∷ password);
  start_b = λ password id_a id_b. (password, 2 ∷ password);
  finish = λ session msg. some (block (length msg));
  hmac_sha256 = λ key bs. block (length bs);
  sha256 = λ bs. block (length bs);
}

pub map-IsVisible : (bs : List ℕ) → All IsVisible (map (λ b. b + 20000) bs)
map-IsVisible [] = tt
map-IsVisible (b ∷ bs) = (ground arith, map-IsVisible bs)

pub back_map : (bs : List ℕ) → map (λ b. b - 20000) (map (λ b. b + 20000) bs) ≡ bs
back_map [] = refl
back_map (b ∷ bs) = ground (arith, back_map bs)

abbrev pub toy_hex : Hex
toy_hex = record {
  encode = map (λ b. b + 20000);
  decode = λ s. some (map (λ b. b - 20000) s);
  decode-encode = λ bs. ap some (back_map bs);
  encode_visible = map-IsVisible;
}

abbrev pub healthy : Disk
healthy = record {
  pin_file = absent;
  tmp_file = absent;
  can_create_dir = true;
  tmp_write = done;
  can_rename = true;
  can_remove = true;
}

abbrev pub world : List Message → World
world ms = record {
  reader = record { read_buf = []; reads = bytes (frames ms) ∷ [] };
  writer = record { written = []; alive = 4 };
  disk = healthy;
}

abbrev pub entropy : List ℕ
entropy = 64 ∷ 226 ∷ 1 ∷ 0 ∷ 0 ∷ 0 ∷ 0 ∷ 0 ∷ []

abbrev pub code : List ℕ
code = six_digits 123456

drawn : generate_code (some entropy) ≡ ok code
unfolding generate_code
drawn = refl

code_passes : check_code code ≡ ok tt
code_passes = check_code-generate_code entropy drawn

-- " code: 123456\n"

load-store_example : load toy_hex (store toy_hex (block 5) healthy).1 ≡ ok (some (block 5))
unfolding store
load-store_example = load-store toy_hex (block 5) healthy refl

abbrev pub server_cert : List ℕ
server_cert = 1 ∷ 2 ∷ 3 ∷ []

abbrev pub client_cert : List ℕ
client_cert = 4 ∷ 5 ∷ []

abbrev pub to_server : List Message
to_server = client_messages toy_crypto toy_hex (2 ∷ code) (block 7) client_cert

abbrev to_client : List Message
to_client = server_messages toy_crypto toy_hex (1 ∷ code) (block 7) server_cert

run_server_pairing_flow-Pinned_example :
    ((run_server_pairing_flow toy_crypto toy_hex
        (some entropy)
        true
        server_cert
        (world to_server)).1.disk
      ≡ healthy)
    ⊎ ServerPinned toy_crypto toy_hex
        (some entropy)
        (world to_server)
        (run_server_pairing_flow toy_crypto toy_hex
          (some entropy)
          true
          server_cert
          (world to_server)).1.disk
run_server_pairing_flow-Pinned_example =
    run_server_pairing_flow-Pinned toy_crypto toy_hex (some entropy) true server_cert
      (world to_server)

run_client_pairing_flow-Pinned_example :
    ((run_client_pairing_flow toy_crypto toy_hex (some code) client_cert (world to_client)).1.disk
      ≡ healthy)
    ⊎ ClientPinned toy_crypto toy_hex
        (some code)
        (world to_client)
        (run_client_pairing_flow toy_crypto toy_hex
          (some code)
          client_cert
          (world to_client)).1.disk
run_client_pairing_flow-Pinned_example =
    run_client_pairing_flow-Pinned toy_crypto toy_hex (some code) client_cert (world to_client)

to_server-IsSendable : All IsSendable to_server
unfolding cert_hmac
to_server-IsSendable = omega arith

to_client-IsSendable : All IsSendable to_client
unfolding cert_hmac
to_client-IsSendable = omega arith

to_server-Ready : Ready to_server 3 (world to_server)
to_server-Ready = record {
  live = omega arith;
  left = append-nil _;
  good = to_server-IsSendable;
  room = omega arith;
}

to_client-Ready : Ready to_client 3 (world to_client)
to_client-Ready = record {
  live = omega arith;
  left = append-nil _;
  good = to_client-IsSendable;
  room = omega arith;
}

pairing_completes_example :
    let server =
      run_server_pairing_flow toy_crypto toy_hex
        (some entropy)
        true
        server_cert
        (world to_server) in
    let client =
      run_client_pairing_flow toy_crypto toy_hex (some code) client_cert (world to_client) in
    (server.0 ≡ ok tt)
    × (client.0 ≡ ok tt)
    × (server.1.writer.written ≡ pending (world to_client).reader)
    × (client.1.writer.written ≡ pending (world to_server).reader)
    × (load toy_hex server.1.disk ≡ ok (some (pin_hash_of toy_crypto client_cert)))
    × (load toy_hex client.1.disk ≡ ok (some (pin_hash_of toy_crypto server_cert)))
unfolding pin_hash_of store
pairing_completes_example =
    pairing_completes toy_crypto toy_hex entropy code (block 7) server_cert client_cert
      (world to_server) (world to_client) (λ bs. refl) drawn refl refl refl to_server-Ready
      to_client-Ready refl refl

-- The client shows its certificate and then rejects.
abbrev turned_down : List Message
turned_down = certificate toy_crypto toy_hex (block 7) client_cert ∷ Message.pair_rejected 4 ∷ []

exchange_and_pin_unconfirmed_example :
    let out = exchange_and_pin toy_crypto toy_hex server_cert (block 7) (world turned_down) in
    (out.0 ≡ err (refusal (Message.pair_rejected 4)))
    × (out.1.disk ≡ (store toy_hex (pin_hash_of toy_crypto client_cert) healthy).1)
unfolding pin_hash_of store cert_hmac
exchange_and_pin_unconfirmed_example =
    exchange_and_pin_unconfirmed toy_crypto toy_hex server_cert client_cert (block 7)
      (Message.pair_rejected 4) (world turned_down)
      (record { live = omega arith; left = append-nil _; good = omega arith; room = omega arith })
      (cc) (omega arith) refl

abbrev typed_code : List ℕ
typed_code = 48 ∷ 49 ∷ 50 ∷ 51 ∷ 52 ∷ 53 ∷ []

code_of_line-code_example :
    (code_of_line ((32 ∷ []) ++ (typed_code ++ (10 ∷ []))) ≡ typed_code)
    × (code_of_line ((32 ∷ []) ++ (code_prefix ++ ((32 ∷ []) ++ (typed_code ++ (10 ∷ [])))))
        ≡ typed_code)
unfolding check_code
code_of_line-code_example =
    code_of_line-code (32 ∷ []) (32 ∷ []) (10 ∷ []) typed_code (refl, tt) (refl, tt) (refl, tt) refl
