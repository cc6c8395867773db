-- ===== src/Pairing/Flow/Decisions.antt =====
-- What the decisions of a flow on a frame, a key and a tag say when they let it go on.
use kmwarp.Base.{
  ℕ, ◌≡◌, refl, sym, ap, ◌∙◌, Bool, true, false, List, Result, ok, err, if◌then◌else◌, Bool-cases,
  bytes_eq_iff, inl, inr,
}
use mathlib.Core.Path.{ap₂}
use kmwarp.Wire.{Message}
use kmwarp.Pairing.{Crypto, PairingError, hmac_verify_failed, cert_hmac, cert_hmac_verify}
use kmwarp.Pairing.Pins.{Hex}
use kmwarp.Pairing.Flow.{
  World, lift, send_reject, pure, raise, ◌>>◌, take_spake_a, take_spake_b, take_cert_exchange,
  take_accepted, derive, verify, pairing,
}
use kmwarp.Pairing.Flow.Steps.{Keeps, ok-eq_inj, send-Keeps}

pub take_spake_a-Keeps : (m : Message) → Keeps (take_spake_a m)
unfolding take_spake_a send_reject
take_spake_a-Keeps (Message.pair_spake_a msg) w = refl
take_spake_a-Keeps (Message.pair_rejected r) w = refl
take_spake_a-Keeps m w = send-Keeps (Message.pair_rejected 5) w

pub take_spake_a_ok :
    (m : Message) {b : List ℕ} {w w' : World}
    → take_spake_a m w ≡ (ok b, w')
    → (m ≡ Message.pair_spake_a b) × (w' ≡ w)
unfolding take_spake_a send_reject
take_spake_a_ok (Message.pair_spake_a msg) h = (cc, sym (ap (λ out. out.1) h))
take_spake_a_ok m h = cc

pub take_spake_b-Keeps : (m : Message) → Keeps (take_spake_b m)
unfolding take_spake_b send_reject
take_spake_b-Keeps (Message.pair_spake_b msg) w = refl
take_spake_b-Keeps (Message.pair_rejected r) w = refl
take_spake_b-Keeps m w = send-Keeps (Message.pair_rejected 5) w

pub take_spake_b_ok :
    (m : Message) {b : List ℕ} {w w' : World}
    → take_spake_b m w ≡ (ok b, w')
    → (m ≡ Message.pair_spake_b b) × (w' ≡ w)
unfolding take_spake_b send_reject
take_spake_b_ok (Message.pair_spake_b msg) h = (cc, sym (ap (λ out. out.1) h))
take_spake_b_ok m h = cc

pub take_cert_exchange-Keeps : (m : Message) → Keeps (take_cert_exchange m)
unfolding take_cert_exchange send_reject
take_cert_exchange-Keeps (Message.pair_cert_exchange cert tag) w = refl
take_cert_exchange-Keeps (Message.pair_rejected r) w = refl
take_cert_exchange-Keeps m w = send-Keeps (Message.pair_rejected 5) w

pub take_cert_exchange_ok :
    (m : Message) {b : List ℕ × List ℕ} {w w' : World}
    → take_cert_exchange m w ≡ (ok b, w')
    → (m ≡ Message.pair_cert_exchange b.0 b.1) × (w' ≡ w)
unfolding take_cert_exchange send_reject
take_cert_exchange_ok (Message.pair_cert_exchange cert tag) h =
    let same = ok-eq_inj h in
    (ap (λ b. Message.pair_cert_exchange b.0 b.1) same, sym (ap (λ out. out.1) h))
take_cert_exchange_ok m h = cc

pub take_accepted-Keeps : (m : Message) → Keeps (take_accepted m)
unfolding take_accepted
take_accepted-Keeps (Message.pair_rejected r) w = refl
take_accepted-Keeps m w = refl

pub take_accepted_ok :
    (m : Message) {w w' : World}
    → take_accepted m w ≡ (ok tt, w')
    → (m ≡ Message.pair_accepted) × (w' ≡ w)
unfolding take_accepted
take_accepted_ok Message.pair_accepted h = (refl, sym (ap (λ out. out.1) h))
take_accepted_ok (Message.pair_rejected r) h = cc
take_accepted_ok m h = cc

pub lift-Keeps : {A : Type 0} (r : Result A PairingError) → Keeps (lift r)
lift-Keeps (ok a) w = refl
lift-Keeps (err e) w = refl

pub lift_ok :
    {A : Type 0} (r : Result A PairingError) {a : A} {w w' : World}
    → lift r w ≡ (ok a, w')
    → (r ≡ ok a) × (w' ≡ w)
lift_ok (ok a) h = (ap ok (ok-eq_inj h), sym (ap (λ out. out.1) h))
lift_ok (err e) h = cc

module _ (c : Crypto) (hex : Hex) where
  pub derive-Keeps : (r : Result (List ℕ) PairingError) → Keeps (derive c hex r)
  unfolding derive send_reject
  derive-Keeps (ok k) w = refl
  derive-Keeps (err e) w = send-Keeps (Message.pair_rejected 1) w

  pub derive_ok :
      (r : Result (List ℕ) PairingError) {k : List ℕ} {w w' : World}
      → derive c hex r w ≡ (ok k, w')
      → (r ≡ ok k) × (w' ≡ w)
  unfolding derive send_reject
  derive_ok (ok a) h = (ap ok (ok-eq_inj h), sym (ap (λ out. out.1) h))
  derive_ok (err e) h = cc

  pub verify-Keeps : (key : List ℕ) (peer : List ℕ × List ℕ) → Keeps (verify c hex key peer)
  unfolding verify
  verify-Keeps key (cert, tag) w = elim (Bool-cases (cert_hmac_verify (cert_hmac c key cert) tag)) [
    | inl good ↦ rw good
    | inr bad ↦ rw bad (send-Keeps (Message.pair_rejected 2) w)
  ]

  same_tag : (a b : List ℕ) → cert_hmac_verify a b ≡ true → b ≡ a
  unfolding cert_hmac_verify
  same_tag a b h = sym ((bytes_eq_iff a b).0 h)

  verify-good :
      (good : Bool) (cert : List ℕ) {cert' : List ℕ} {w w' : World}
      → (if good then pure cert else (send_reject 2 >> raise (pairing hmac_verify_failed))) w
        ≡ (ok cert', w')
      → (good ≡ true) × (cert ≡ cert') × (w' ≡ w)
  unfolding send_reject
  verify-good true cert h = (refl, ok-eq_inj h, sym (ap (λ out. out.1) h))
  verify-good false cert h = cc

  pub verify_ok :
      (key : List ℕ) (peer : List ℕ × List ℕ) {cert : List ℕ} {w w' : World}
      → verify c hex key peer w ≡ (ok cert, w')
      → (peer ≡ (cert, cert_hmac c key cert)) × (w' ≡ w)
  unfolding verify
  verify_ok key (cert, tag) h =
      let (good, same, still) = verify-good (cert_hmac_verify (cert_hmac c key cert) tag) cert h in
      (ap₂ (λ a b. (a, b)) same (same_tag _ _ good ∙ ap (cert_hmac c key) same), still)
