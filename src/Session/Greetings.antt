-- ===== src/Session/Greetings.antt =====
-- A session over a TLS connection that completes, and the greetings of two honest machines.
use kmwarp.Base.{
  ℕ, ◌≡◌, refl, ap, ◌∙◌, true, List, [], ◌∷◌, ◌++◌, Option, some, Result, ok, if◌then◌else◌, arith,
}
use kmwarp.Wire.{Message}
use kmwarp.Wire.Frame.{frame}
use kmwarp.Wire.Connection.Delivery.{IsSendable}
use kmwarp.Pairing.{Crypto, TlsError}
use kmwarp.Pairing.Pins.{Hex}
use kmwarp.Pairing.Flow.{World, Flow, receive, send}
use kmwarp.Pairing.Flow.Steps.{after-run}
use kmwarp.Pairing.Flow.Honest.{Ready, put, send_frame, receive_frame, Ready-put}
use kmwarp.Session.{
  Tls, Outcome, begun, closed, accepts_cert, proto_version, finish, paired, over_tls, with_pin,
  greet_client, greet_server, take_hello, take_hello_ack,
}

module _ (c : Crypto) (hex : Hex) where
  pub with_pin-run :
      (tls : Tls) {cert : List ℕ} (pinned : Option (List ℕ))
      {loaded : Result (Option (List ℕ)) TlsError} (pairing_flow : Flow (Unit {0}))
      (greet : Flow Outcome) (w : World)
      → loaded ≡ ok pinned
      → tls.config_ok ≡ true
      → tls.handshake (accepts_cert c hex pinned) ≡ some cert
      → with_pin c hex tls loaded pairing_flow greet w ≡ paired pinned pairing_flow greet w
  with_pin-run tls pinned pairing_flow greet w l ready shaken =
      ap (λ r. with_pin c hex tls r pairing_flow greet w) l
      ∙ ap
          (λ b.
            if b
            then over_tls (tls.handshake (accepts_cert c hex pinned)) pinned pairing_flow greet w
            else (closed, w))
          ready
      ∙ ap (λ s. over_tls s pinned pairing_flow greet w) shaken

pub greet_client_honest :
    (width height version : ℕ) (name : List ℕ) (w : World)
    → Ready (Message.hello version name ∷ []) 1 w
    → IsSendable (Message.hello_ack true width height)
    → ((finish (greet_client width height w)).0 ≡ begun)
      × ((finish (greet_client width height w)).1.writer.written
          ≡ w.writer.written ++ frame (Message.hello_ack true width height))
unfolding greet_client take_hello
greet_client_honest width height version name w ready good =
    let (r, got, next) = receive_frame (Message.hello version name) [] 1 w ready in
    let w₁ : World = record w { reader = r } in
    let ack = Message.hello_ack true width height in
    let run : greet_client width height w ≡ (ok begun, record w₁ { writer = put ack w.writer }) =
      after-run receive _ w got (
        after-run (send ack) _ w₁ (send_frame ack w₁ good (let room = ready.room in omega arith))
          refl) in
    (ap (λ out. (finish out).0) run, ap (λ out. (finish out).1.writer.written) run)

pub greet_server_honest :
    (width height : ℕ) (name : List ℕ) (w : World)
    → Ready (Message.hello_ack true width height ∷ []) 1 w
    → IsSendable (Message.hello proto_version name)
    → ((finish (greet_server true name w)).0 ≡ begun)
      × ((finish (greet_server true name w)).1.writer.written
          ≡ w.writer.written ++ frame (Message.hello proto_version name))
unfolding greet_server take_hello_ack
greet_server_honest width height name w ready good =
    let hello = Message.hello proto_version name in
    let w₁ : World = record w { writer = put hello w.writer } in
    let (r, got, next) =
      receive_frame (Message.hello_ack true width height) [] 0 w₁ (Ready-put hello ready) in
    let run : greet_server true name w ≡ (ok begun, record w₁ { reader = r }) =
      after-run (send hello) _ w (send_frame hello w good (let room = ready.room in omega arith))
        (after-run receive _ w₁ got refl) in
    (ap (λ out. (finish out).0) run, ap (λ out. (finish out).1.writer.written) run)
