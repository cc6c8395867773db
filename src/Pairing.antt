-- ===== src/Pairing.antt =====
-- crates/core/src/pairing/mod.rs, and the `PairingError` and `TlsError` of crates/core/src/error.rs:
-- the pairing code, the two SPAKE2 sessions and the tag of a certificate. The pin file and the flows of
-- the two sides stand in the child modules.
pub mod Text
pub mod Codes
pub mod Pins
pub mod RejectCode
pub mod Flow
use kmwarp.Base.{
  ℕ, ◌+◌, ◌*◌, ◌/◌, ◌%◌, Bool, true, not, ◌&&◌, ◌||◌, List, [], ◌∷◌, Option, none, some, Result, ok,
  err, bind_result, leb, ◌==◌, if◌then◌else◌, length, bytes_eq,
}

-- `TlsError`; the variants of the certificate libraries do not arise here, and texts for the log are
-- left out.
pub data TlsError : Type 0 where
  io pin_file_corrupt : TlsError

pub data PairingError : Type 0 where
  spake hmac_verify_failed code_must_be_6_digits rng : PairingError

abbrev pub pairing_code_digits : ℕ
pairing_code_digits = 6

abbrev pub shared_key_len : ℕ
shared_key_len = 32

abbrev pub id_server : List ℕ
id_server =
    b'k' ∷ b'm' ∷ b'w' ∷ b'a' ∷ b'r' ∷ b'p' ∷ b'-' ∷ b's' ∷ b'e' ∷ b'r' ∷ b'v' ∷ b'e' ∷ b'r' ∷ []

abbrev pub id_client : List ℕ
id_client =
    b'k' ∷ b'm' ∷ b'w' ∷ b'a' ∷ b'r' ∷ b'p' ∷ b'-' ∷ b'c' ∷ b'l' ∷ b'i' ∷ b'e' ∷ b'n' ∷ b't' ∷ []

-- `u64::from_le_bytes`
abbrev pub from_le_bytes : List ℕ → ℕ
from_le_bytes [] = 0
from_le_bytes (b ∷ bs) = b + 256 * from_le_bytes bs

-- `format!("{:06}", n)` of a number below 10^6.
abbrev pub six_digits : ℕ → List ℕ
six_digits n =
    (b'0' + n / 100000 % 10)
    ∷ (b'0' + n / 10000 % 10)
    ∷ (b'0' + n / 1000 % 10)
    ∷ (b'0' + n / 100 % 10)
    ∷ (b'0' + n / 10 % 10)
    ∷ (b'0' + n % 10)
    ∷ []

-- What the system's random source gives is an argument: eight bytes, or none when it fails.
unfoldable pub generate_code : Option (List ℕ) → Result (List ℕ) PairingError
generate_code none = err rng
generate_code (some buf) = ok (six_digits (from_le_bytes buf % 1000000))

abbrev pub is_ascii_digit : ℕ → Bool
is_ascii_digit c = leb b'0' c && leb c b'9'

abbrev pub all : (ℕ → Bool) → List ℕ → Bool
all p [] = true
all p (x ∷ xs) = p x && all p xs

-- A code is the list of its characters; one that passes is ASCII, so that these are its bytes.
unfoldable pub check_code : List ℕ → Result (Unit {0}) PairingError
check_code code =
    if not (length code == pairing_code_digits) || not (all is_ascii_digit code)
    then err code_must_be_6_digits
    else ok tt

-- The libraries `spake2`, `hmac` and `sha2`, which are outside.
pub record Crypto : Type 1 where
  pub Spake2 : Type 0
  pub start_a : (password id_a id_b : List ℕ) → Spake2 × List ℕ
  pub start_b : (password id_a id_b : List ℕ) → Spake2 × List ℕ
  pub finish : Spake2 → List ℕ → Option (List ℕ)
  pub hmac_sha256 : (key bytes : List ℕ) → List ℕ
  pub sha256 : List ℕ → List ℕ

-- `finish` of both wrappers: a failure, or a key that is not 32 bytes long, is a SPAKE2 error.
abbrev pub as_shared_key : Option (List ℕ) → Result (List ℕ) PairingError
as_shared_key none = err spake
as_shared_key (some key) = if length key == shared_key_len then ok key else err spake

module _ (c : Crypto) where
  unfoldable pub start_server : List ℕ → Result (c.Spake2 × List ℕ) PairingError
  unfolding check_code
  start_server code = bind_result (check_code code) (λ _. ok (c.start_a code id_server id_client))

  unfoldable pub start_client : List ℕ → Result (c.Spake2 × List ℕ) PairingError
  unfolding check_code
  start_client code = bind_result (check_code code) (λ _. ok (c.start_b code id_server id_client))

  unfoldable pub finish_pairing : c.Spake2 → List ℕ → Result (List ℕ) PairingError
  finish_pairing session peer_msg = as_shared_key (c.finish session peer_msg)

  unfoldable pub cert_hmac : (shared cert_der : List ℕ) → List ℕ
  cert_hmac shared cert_der = c.hmac_sha256 shared cert_der

  unfoldable pub pin_hash_of : List ℕ → List ℕ
  pin_hash_of cert_der = c.sha256 cert_der

-- The constant-time comparison of two tags.
unfoldable pub cert_hmac_verify : (expected actual : List ℕ) → Bool
cert_hmac_verify expected actual = bytes_eq expected actual
