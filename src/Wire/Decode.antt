-- ===== src/Wire/Decode.antt =====
-- `decode_frame` of crates/core/src/wire/codec.rs, with its cursor over the payload. A reader step
-- is given the cursor and returns the value that it read and the cursor after it.
use kmwarp.Base.{
  ℕ, ◌+◌, ◌-◌, ◌*◌, Bool, true, false, Option, some, none, List, [], ◌∷◌, ℤ, pos, negsuc, leb, ltb,
  ◌==◌, if◌then◌else◌, length, take, drop, Result, ok, err, usize_max, is_utf8,
}
use kmwarp.Wire.{Message, WireError, frame_header_len}
use kmwarp.Wire.MsgType

pub record PayloadReader : Type 0 where
  pub bytes : List ℕ
  pub at : ℕ

abbrev pub Reader : Type 0 → Type 0
Reader A = PayloadReader → Result (A × PayloadReader) WireError

infixl 5 ◌>>=◌ ◌>>◌
abbrev pub ◌>>=◌ : {A B : Type 0} → Reader A → (A → Reader B) → Reader B
◌>>=◌ m f r = elim (m r) [ ok (a, r') ↦ f a r' | err e ↦ err e ]

abbrev pub ◌>>◌ : {B : Type 0} → Reader (Unit {0}) → Reader B → Reader B
m >> k = m >>= λ _. k

abbrev pub return : {A : Type 0} → A → Reader A
return a r = ok (a, r)

-- The value alone, for a caller who is done with the cursor.
abbrev pub value : {A : Type 0} → Result (A × PayloadReader) WireError → Result A WireError
value (ok (a, r)) = ok a
value (err e) = err e

abbrev pub run : {A : Type 0} → Reader A → List ℕ → Result A WireError
run m payload = value (m (record { bytes = payload; at = 0 }))

-- `checked_add`, then `get(pos..end)`.
unfoldable pub read_bytes : ℕ → Reader (List ℕ)
read_bytes n r =
    let end = r.at + n in
    if ltb usize_max end
    then err WireError.short_buffer
    else if leb end (length r.bytes)
    then ok (take n (drop r.at r.bytes), record r { at = end })
    else err WireError.short_buffer

abbrev first_byte : List ℕ → PayloadReader → Result (ℕ × PayloadReader) WireError
first_byte [] r = err WireError.short_buffer
first_byte (byte ∷ _) r = ok (byte, record r { at = r.at + 1 })

unfoldable pub read_u8 : Reader ℕ
read_u8 r = first_byte (drop r.at r.bytes) r

-- `from_le_bytes`; the reader hands over as many bytes as the integer has.
abbrev pub from_le_bytes : List ℕ → ℕ
from_le_bytes [] = 0
from_le_bytes (b ∷ bs) = b + 256 * from_le_bytes bs

-- The `i16` of a bit pattern.
abbrev pub i16_of_bits : ℕ → ℤ
i16_of_bits n = if ltb n 32768 then pos n else negsuc (65535 - n)

unfoldable pub read_u16_le : Reader ℕ
unfolding read_bytes
read_u16_le = do bytes ← read_bytes 2; return (from_le_bytes bytes)

unfoldable pub read_i16_le : Reader ℤ
unfolding read_bytes
read_i16_le = do bytes ← read_bytes 2; return (i16_of_bits (from_le_bytes bytes))

unfoldable pub read_u32_le : Reader ℕ
unfolding read_bytes
read_u32_le = do bytes ← read_bytes 4; return (from_le_bytes bytes)

unfoldable pub read_u64_le : Reader ℕ
unfolding read_bytes
read_u64_le = do bytes ← read_bytes 8; return (from_le_bytes bytes)

-- `std::str::from_utf8(bytes)?`
unfoldable pub from_utf8 : List ℕ → Reader (Unit {0})
from_utf8 bytes r = if is_utf8 bytes then ok (tt, r) else err WireError.utf8

unfoldable pub bool_of_byte : ℕ → Reader Bool
bool_of_byte byte r =
    if byte == 0
    then ok (false, r)
    else if byte == 1
    then ok (true, r)
    else err WireError.invalid_payload

unfoldable pub decode_hello : Reader Message
decode_hello = do
  proto_version ← read_u16_le
  name_len ← read_u16_le
  peer_name ← read_bytes name_len
  from_utf8 peer_name
  return (Message.hello proto_version peer_name)

unfoldable pub decode_hello_ack : Reader Message
decode_hello_ack = do
  accepted_byte ← read_u8
  accepted ← bool_of_byte accepted_byte
  w ← read_u16_le
  h ← read_u16_le
  return (Message.hello_ack accepted w h)

unfoldable pub decode_mouse_move_rel : Reader Message
decode_mouse_move_rel = do dx ← read_i16_le; dy ← read_i16_le; return (Message.mouse_move_rel dx dy)

unfoldable pub decode_mouse_button : Reader Message
decode_mouse_button = do
  button ← read_u8
  state ← read_u8
  return (Message.mouse_button button state)

unfoldable pub decode_mouse_wheel : Reader Message
decode_mouse_wheel = do dx ← read_i16_le; dy ← read_i16_le; return (Message.mouse_wheel dx dy)

unfoldable pub decode_key_event : Reader Message
decode_key_event = do
  hid_usage ← read_u16_le
  state ← read_u8
  modifiers ← read_u8
  return (Message.key_event hid_usage state modifiers)

unfoldable pub decode_clipboard_text : Reader Message
decode_clipboard_text = do
  chunk_flags ← read_u8
  byte_len ← read_u16_le
  bytes ← read_bytes byte_len
  return (Message.clipboard_text chunk_flags bytes)

unfoldable pub decode_take_control : Reader Message
decode_take_control = do entry_y ← read_u16_le; return (Message.take_control entry_y)

unfoldable pub decode_release_control : Reader Message
decode_release_control = do exit_y ← read_u16_le; return (Message.release_control exit_y)

unfoldable pub decode_heartbeat : Reader Message
decode_heartbeat = do seq ← read_u32_le; return (Message.heartbeat seq)

unfoldable pub decode_bye : Reader Message
decode_bye = do reason_code ← read_u8; return (Message.bye reason_code)

unfoldable pub decode_echo_ping : Reader Message
decode_echo_ping = do ts_ns ← read_u64_le; return (Message.echo_ping ts_ns)

unfoldable pub decode_echo_pong : Reader Message
decode_echo_pong = do ts_ns ← read_u64_le; return (Message.echo_pong ts_ns)

unfoldable pub decode_pair_spake_a : Reader Message
decode_pair_spake_a = do
  msg_len ← read_u16_le
  msg ← read_bytes msg_len
  return (Message.pair_spake_a msg)

unfoldable pub decode_pair_spake_b : Reader Message
decode_pair_spake_b = do
  msg_len ← read_u16_le
  msg ← read_bytes msg_len
  return (Message.pair_spake_b msg)

unfoldable pub decode_pair_cert_exchange : Reader Message
decode_pair_cert_exchange = do
  cert_len ← read_u16_le
  cert_der ← read_bytes cert_len
  hmac ← read_bytes 32
  return (Message.pair_cert_exchange cert_der hmac)

unfoldable pub decode_pair_accepted : Reader Message
decode_pair_accepted = return Message.pair_accepted

unfoldable pub decode_pair_rejected : Reader Message
decode_pair_rejected = do reason_code ← read_u8; return (Message.pair_rejected reason_code)

unfoldable pub decode_payload : ℕ → List ℕ → Result Message WireError
unfolding decode_hello decode_hello_ack decode_mouse_move_rel decode_mouse_button decode_mouse_wheel
    decode_key_event decode_clipboard_text decode_take_control decode_release_control
    decode_heartbeat decode_bye decode_echo_ping decode_echo_pong decode_pair_spake_a
    decode_pair_spake_b decode_pair_cert_exchange decode_pair_accepted decode_pair_rejected
decode_payload msg_type_byte payload =
    if msg_type_byte == MsgType.hello
    then run decode_hello payload
    else if msg_type_byte == MsgType.hello_ack
    then run decode_hello_ack payload
    else if msg_type_byte == MsgType.mouse_move_rel
    then run decode_mouse_move_rel payload
    else if msg_type_byte == MsgType.mouse_button
    then run decode_mouse_button payload
    else if msg_type_byte == MsgType.mouse_wheel
    then run decode_mouse_wheel payload
    else if msg_type_byte == MsgType.key_event
    then run decode_key_event payload
    else if msg_type_byte == MsgType.clipboard_text
    then run decode_clipboard_text payload
    else if msg_type_byte == MsgType.take_control
    then run decode_take_control payload
    else if msg_type_byte == MsgType.release_control
    then run decode_release_control payload
    else if msg_type_byte == MsgType.heartbeat
    then run decode_heartbeat payload
    else if msg_type_byte == MsgType.bye
    then run decode_bye payload
    else if msg_type_byte == MsgType.echo_ping
    then run decode_echo_ping payload
    else if msg_type_byte == MsgType.echo_pong
    then run decode_echo_pong payload
    else if msg_type_byte == MsgType.pair_spake_a
    then run decode_pair_spake_a payload
    else if msg_type_byte == MsgType.pair_spake_b
    then run decode_pair_spake_b payload
    else if msg_type_byte == MsgType.pair_cert_exchange
    then run decode_pair_cert_exchange payload
    else if msg_type_byte == MsgType.pair_accepted
    then run decode_pair_accepted payload
    else if msg_type_byte == MsgType.pair_rejected
    then run decode_pair_rejected payload
    else err (WireError.unknown_msg_type msg_type_byte)

-- The buffer is advanced past a decoded frame, and is left alone otherwise.
unfoldable pub decode_frame : List ℕ → Result (Option Message) WireError × List ℕ
unfolding decode_payload
decode_frame (msg_type_byte ∷ l0 ∷ l1 ∷ rest) =
    let payload_len = from_le_bytes (l0 ∷ l1 ∷ []) in
    let frame_len = frame_header_len + payload_len in
    let buf = msg_type_byte ∷ l0 ∷ l1 ∷ rest in
    if ltb (length buf) frame_len
    then (ok none, buf)
    else elim (decode_payload msg_type_byte (take payload_len rest)) [
      | ok msg ↦ (ok (some msg), drop frame_len buf)
      | err e ↦ (err e, buf)
    ]
decode_frame buf = (ok none, buf)
