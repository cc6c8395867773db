-- ===== src/Wire/Encode.antt =====
-- `encode_frame` of crates/core/src/wire/codec.rs. An encoder step is given the buffer and returns
-- its result with the buffer after it; the `put_*` steps of `bytes::BufMut` append.
use kmwarp.Base.{
  ℕ, ◌-◌, ◌/◌, ◌%◌, List, [], ◌∷◌, ◌++◌, ℤ, pos, negsuc, leb, if◌then◌else◌, length, Result, ok,
  err, saturating_add_usize,
}
use kmwarp.Wire.{Message, WireError, max_payload_len}
use kmwarp.Wire.MsgType

abbrev pub le16 : ℕ → List ℕ
le16 v = (v % 256) ∷ (v / 256 % 256) ∷ []

abbrev pub le32 : ℕ → List ℕ
le32 v = (v % 256) ∷ (v / 256 % 256) ∷ (v / 65536 % 256) ∷ (v / 16777216 % 256) ∷ []

abbrev pub le64 : ℕ → List ℕ
le64 v = le32 (v % 4294967296) ++ le32 (v / 4294967296)

-- The bit pattern of an `i16`.
abbrev pub i16_bits : ℤ → ℕ
i16_bits (pos n) = n
i16_bits (negsuc n) = 65535 - n

abbrev pub Encoder : Type 0 → Type 0
Encoder A = List ℕ → Result A WireError × List ℕ

infixl 5 ◌>>=◌ ◌>>◌
abbrev pub ◌>>=◌ : {A B : Type 0} → Encoder A → (A → Encoder B) → Encoder B
◌>>=◌ m f buf = let (r, buf') = m buf in elim r [ ok a ↦ f a buf' | err e ↦ (err e, buf') ]

abbrev pub ◌>>◌ : {B : Type 0} → Encoder (Unit {0}) → Encoder B → Encoder B
m >> k = m >>= λ _. k

-- The `?` on a result that does not touch the buffer.
abbrev pub lift : {A : Type 0} → Result A WireError → Encoder A
lift r buf = (r, buf)

abbrev pub put_slice : List ℕ → Encoder (Unit {0})
put_slice bs buf = (ok tt, buf ++ bs)

abbrev pub put_u8 : ℕ → Encoder (Unit {0})
put_u8 v = put_slice (v ∷ [])

abbrev pub put_u16_le : ℕ → Encoder (Unit {0})
put_u16_le v = put_slice (le16 v)

abbrev pub put_i16_le : ℤ → Encoder (Unit {0})
put_i16_le v = put_slice (le16 (i16_bits v))

abbrev pub put_u32_le : ℕ → Encoder (Unit {0})
put_u32_le v = put_slice (le32 v)

abbrev pub put_u64_le : ℕ → Encoder (Unit {0})
put_u64_le v = put_slice (le64 v)

-- The variant's `len` is itself a `u16`, so it saturates.
unfoldable pub too_long : ℕ → WireError
too_long len = WireError.payload_too_long (if leb len 65535 then len else 65535) max_payload_len

unfoldable pub check_payload_len : ℕ → Result ℕ WireError
check_payload_len len = if leb len max_payload_len then ok len else err (too_long len)

-- `u16::try_from(len).map_err(|_| too_long(len))`
unfoldable pub try_u16 : ℕ → Result ℕ WireError
try_u16 len = if leb len 65535 then ok len else err (too_long len)

unfoldable pub encode_frame : Message → Encoder (Unit {0})
encode_frame (Message.hello proto_version peer_name) = do
  payload_len ← lift (check_payload_len (saturating_add_usize 4 (length peer_name)))
  name_len ← lift (try_u16 (length peer_name))
  put_u8 MsgType.hello
  put_u16_le payload_len
  put_u16_le proto_version
  put_u16_le name_len
  put_slice peer_name
encode_frame (Message.hello_ack accepted width height) = do
  put_u8 MsgType.hello_ack
  put_u16_le 5
  put_u8 (if accepted then 1 else 0)
  put_u16_le width
  put_u16_le height
encode_frame (Message.mouse_move_rel dx dy) = do
  put_u8 MsgType.mouse_move_rel
  put_u16_le 4
  put_i16_le dx
  put_i16_le dy
encode_frame (Message.mouse_button button state) = do
  put_u8 MsgType.mouse_button
  put_u16_le 2
  put_u8 button
  put_u8 state
encode_frame (Message.mouse_wheel dx dy) = do
  put_u8 MsgType.mouse_wheel
  put_u16_le 4
  put_i16_le dx
  put_i16_le dy
encode_frame (Message.key_event hid_usage state modifiers) = do
  put_u8 MsgType.key_event
  put_u16_le 4
  put_u16_le hid_usage
  put_u8 state
  put_u8 modifiers
encode_frame (Message.clipboard_text chunk_flags bytes) = do
  payload_len ← lift (check_payload_len (saturating_add_usize 3 (length bytes)))
  byte_len ← lift (try_u16 (length bytes))
  put_u8 MsgType.clipboard_text
  put_u16_le payload_len
  put_u8 chunk_flags
  put_u16_le byte_len
  put_slice bytes
encode_frame (Message.take_control entry_y) = do
  put_u8 MsgType.take_control
  put_u16_le 2
  put_u16_le entry_y
encode_frame (Message.release_control exit_y) = do
  put_u8 MsgType.release_control
  put_u16_le 2
  put_u16_le exit_y
encode_frame (Message.heartbeat seq) = do put_u8 MsgType.heartbeat; put_u16_le 4; put_u32_le seq
encode_frame (Message.bye reason_code) = do put_u8 MsgType.bye; put_u16_le 1; put_u8 reason_code
encode_frame (Message.echo_ping ts_ns) = do put_u8 MsgType.echo_ping; put_u16_le 8; put_u64_le ts_ns
encode_frame (Message.echo_pong ts_ns) = do put_u8 MsgType.echo_pong; put_u16_le 8; put_u64_le ts_ns
encode_frame (Message.pair_spake_a msg) = do
  payload_len ← lift (check_payload_len (saturating_add_usize 2 (length msg)))
  msg_len ← lift (try_u16 (length msg))
  put_u8 MsgType.pair_spake_a
  put_u16_le payload_len
  put_u16_le msg_len
  put_slice msg
encode_frame (Message.pair_spake_b msg) = do
  payload_len ← lift (check_payload_len (saturating_add_usize 2 (length msg)))
  msg_len ← lift (try_u16 (length msg))
  put_u8 MsgType.pair_spake_b
  put_u16_le payload_len
  put_u16_le msg_len
  put_slice msg
encode_frame (Message.pair_cert_exchange cert_der hmac) = do
  payload_len ←
      lift (check_payload_len (saturating_add_usize (saturating_add_usize 2 (length cert_der)) 32))
  cert_len ← lift (try_u16 (length cert_der))
  put_u8 MsgType.pair_cert_exchange
  put_u16_le payload_len
  put_u16_le cert_len
  put_slice cert_der
  put_slice hmac
encode_frame Message.pair_accepted = do put_u8 MsgType.pair_accepted; put_u16_le 0
encode_frame (Message.pair_rejected reason_code) = do
  put_u8 MsgType.pair_rejected
  put_u16_le 1
  put_u8 reason_code
