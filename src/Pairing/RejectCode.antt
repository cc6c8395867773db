-- ===== src/Pairing/RejectCode.antt =====
-- The `reject_code` modules of crates/server/src/net/pairing.rs and crates/client/src/net/pairing.rs.
use kmwarp.Base.{ℕ}

abbrev pub spake2_failure : ℕ
spake2_failure = 1

abbrev pub hmac_mismatch : ℕ
hmac_mismatch = 2

abbrev pub protocol_violation : ℕ
protocol_violation = 5
