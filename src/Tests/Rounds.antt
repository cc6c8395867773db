-- ===== src/Tests/Rounds.antt =====
-- The loops around the sessions, and the start of a machine, at concrete inputs.
use mathlib.Core.Path.{subst}
use kmwarp.Base.{
  ℕ, ◌≡◌, ◌≢◌, refl, ap, ◌∙◌, Bool, true, false, List, [], ◌∷◌, ◌++◌, map, none, some, ok, pos,
  if◌then◌else◌,
}
use kmwarp.Wire.{Message}
use kmwarp.Pairing.{pin_hash_of}
use kmwarp.Pairing.Pins.{done}
use kmwarp.Client.Tasks.{Event}
use kmwarp.Session.{closed}
use kmwarp.Session.Rounds.{Turn, ClientRun, Peer, ServerRun, run_client, run_server}
use kmwarp.Session.Rounds.Impostors.{IsImpostor, run_client_impostors, run_server_impostors}
use kmwarp.Base.{take, err}
use kmwarp.Pairing.Pins.{cut_short}
use kmwarp.Session.Identity.{
  load_or_generate_cut_key, der, is_empty, io, bad_cert_format, CertBundle, CertDisk, IsFull,
  absent, load_or_generate, load_or_generate_again,
}
use kmwarp.Tests.Sessions.{drained}
use kmwarp.Tests.Pairing.{toy_crypto, toy_hex, server_cert, client_cert}
use kmwarp.Tests.Begin.{toy_tls, pinned, loaded}

abbrev stranger : List ℕ
stranger = 99 ∷ []

-- A peer with that certificate is none whose pin is that of `cert`.
stranger-IsImpostor :
    (cert : List ℕ)
    → pin_hash_of toy_crypto stranger ≢ pin_hash_of toy_crypto cert
    → IsImpostor toy_crypto toy_hex (pin_hash_of toy_crypto cert) (toy_tls stranger)
stranger-IsImpostor cert other accepts shown h = go (accepts stranger) h
  where
    go :
        (b : Bool)
        → (if b then some stranger else none) ≡ some shown
        → pin_hash_of toy_crypto shown ≢ pin_hash_of toy_crypto cert
    go true e =
        let same : stranger ≡ shown = cc in λ p. other (ap (pin_hash_of toy_crypto) same ∙ p)
    go false e = cc

not_server : pin_hash_of toy_crypto stranger ≢ pin_hash_of toy_crypto server_cert
unfolding pin_hash_of
not_server = λ e. cc

not_client : pin_hash_of toy_crypto stranger ≢ pin_hash_of toy_crypto client_cert
unfolding pin_hash_of
not_client = λ e. cc

-- Two attempts to connect, and a stranger at the other end.
abbrev turns : List (Turn (List Message) Bool)
turns =
    record {
      attempts = false ∷ true ∷ [];
      tls = toy_tls stranger;
      provider = none;
      has_sink = true;
      reader = record { read_buf = []; reads = [] };
      writer = record { written = []; alive = 2 };
      tx_out = [];
      events = Event.silence ∷ [];
    }
    ∷ []

abbrev client_run : ClientRun (List Message)
client_run = record { disk = pinned server_cert; status = none; sessions = [] }

run_client_impostors_example :
    let (after, ended) =
      run_client toy_crypto toy_hex client_cert drained
        (λ q. false)
        (λ t. t)
        (λ t. true)
        (pos 900)
        []
        []
        turns
        client_run in
    (after.disk ≡ client_run.disk) × (after.sessions ≡ client_run.sessions) × (ended ≡ none)
run_client_impostors_example =
    run_client_impostors toy_crypto toy_hex (pin_hash_of toy_crypto server_cert) client_cert drained
      (λ q. false) (λ t. t) (λ t. true) (pos 900) [] [] turns client_run (loaded server_cert [])
      (stranger-IsImpostor server_cert not_server, tt)

abbrev peers : List Peer
peers =
    record {
      tls = toy_tls stranger;
      entropy = none;
      shown = true;
      reader = record { read_buf = []; reads = [] };
      writer = record { written = []; alive = 2 };
    }
    ∷ []

abbrev server_run : ServerRun
server_run = record { disk = pinned client_cert; status = none; outcomes = [] }

run_server_impostors_example :
    let after = run_server toy_crypto toy_hex server_cert [] 1920 1080 peers server_run in
    (after.disk ≡ server_run.disk)
    × (after.outcomes ≡ server_run.outcomes ++ map (λ peer. closed) peers)
run_server_impostors_example =
    run_server_impostors toy_crypto toy_hex (pin_hash_of toy_crypto client_cert) server_cert [] 1920
      1080 peers server_run (loaded client_cert []) (stranger-IsImpostor client_cert not_client, tt)

abbrev bundle : CertBundle
bundle = record { cert_der = 1 ∷ 2 ∷ []; private_key_der = 3 ∷ 4 ∷ [] }

abbrev blank : CertDisk
blank = record {
  cert_file = absent;
  key_file = absent;
  can_create_dir = true;
  cert_write = done;
  key_write = done;
}

load_or_generate_again_example :
    load_or_generate none (load_or_generate (some bundle) blank).1
    ≡ (ok bundle, (load_or_generate (some bundle) blank).1)
unfolding load_or_generate
load_or_generate_again_example =
    load_or_generate_again (some bundle) none blank (load_or_generate (some bundle) blank).1 bundle
      (λ made e. let same : bundle ≡ made = cc in subst IsFull same (refl, refl)) refl (refl, refl)

-- The disk of a start whose key could not be written at all, as the next start finds it.
abbrev cut_disk : CertDisk
cut_disk = record blank { key_write = cut_short 0 }

abbrev next_disk : CertDisk
next_disk = record blank { cert_file = der (1 ∷ 2 ∷ []); key_file = der [] }

load_or_generate_cut_key_example :
    ((load_or_generate (some bundle) cut_disk).0 ≡ err io)
    × (load_or_generate none next_disk ≡ (
      if is_empty (take 0 bundle.private_key_der)
          then err bad_cert_format
          else ok (record bundle { private_key_der = take 0 bundle.private_key_der }),
      next_disk,
    ))
unfolding load_or_generate
load_or_generate_cut_key_example =
    load_or_generate_cut_key bundle none cut_disk next_disk 0 (refl, refl) refl refl refl refl
      (refl, refl)
