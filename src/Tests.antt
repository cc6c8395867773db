-- ===== src/Tests.antt =====
-- The theorems at concrete inputs.
mod Codec
mod Control
mod Begin
mod Tasks
mod Rounds
mod Pairing
mod Sessions
mod Tap
mod Displays
mod Service
