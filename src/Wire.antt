-- ===== src/Wire.antt =====
-- crates/core/src/wire/mod.rs and the `WireError` of crates/core/src/error.rs: the messages of the
-- protocol. The codec, the stream of frames and the translations stand in the child modules.
pub mod MsgType
pub mod Encode
pub mod Decode
pub mod Frame
pub mod RoundTrip
pub mod Convert
pub mod Stream
pub mod Connection
use kmwarp.Base.{
  ℕ, ◌≡◌, Bool, true, List, ℤ, All, length, IsU8, IsU16, IsU32, IsU64, IsI16, is_utf8,
}

abbrev pub max_payload_len : ℕ
max_payload_len = 65535

abbrev pub frame_header_len : ℕ
frame_header_len = 3

-- A `String` is the list of its bytes, as is a `Vec<u8>`; `i16` fields are integers.
pub data Message : Type 0 where
  hello : (proto_version : ℕ) (peer_name : List ℕ) → Message
  hello_ack : (accepted : Bool) (width height : ℕ) → Message
  mouse_move_rel : (dx dy : ℤ) → Message
  mouse_button : (button state : ℕ) → Message
  mouse_wheel : (dx dy : ℤ) → Message
  key_event : (hid_usage state modifiers : ℕ) → Message
  clipboard_text : (chunk_flags : ℕ) (bytes : List ℕ) → Message
  take_control : (entry_y : ℕ) → Message
  release_control : (exit_y : ℕ) → Message
  heartbeat : (seq : ℕ) → Message
  bye : (reason_code : ℕ) → Message
  echo_ping : (ts_ns : ℕ) → Message
  echo_pong : (ts_ns : ℕ) → Message
  pair_spake_a : (msg : List ℕ) → Message
  pair_spake_b : (msg : List ℕ) → Message
  pair_cert_exchange : (cert_der hmac : List ℕ) → Message
  pair_accepted : Message
  pair_rejected : (reason_code : ℕ) → Message

-- The texts that some errors carry for the log are left out.
pub data WireError : Type 0 where
  short_buffer : WireError
  unknown_msg_type : ℕ → WireError
  payload_too_long : (len max : ℕ) → WireError
  utf8 : WireError
  invalid_payload : WireError

-- What Rust's field types promise of a message.
abbrev pub IsTyped : Message → Type 0
IsTyped (Message.hello v name) = IsU16 v × All IsU8 name × (is_utf8 name ≡ true)
IsTyped (Message.hello_ack a w h) = IsU16 w × IsU16 h
IsTyped (Message.mouse_move_rel dx dy) = IsI16 dx × IsI16 dy
IsTyped (Message.mouse_button b s) = IsU8 b × IsU8 s
IsTyped (Message.mouse_wheel dx dy) = IsI16 dx × IsI16 dy
IsTyped (Message.key_event h s m) = IsU16 h × IsU8 s × IsU8 m
IsTyped (Message.clipboard_text f bs) = IsU8 f × All IsU8 bs
IsTyped (Message.take_control y) = IsU16 y
IsTyped (Message.release_control y) = IsU16 y
IsTyped (Message.heartbeat n) = IsU32 n
IsTyped (Message.bye r) = IsU8 r
IsTyped (Message.echo_ping t) = IsU64 t
IsTyped (Message.echo_pong t) = IsU64 t
IsTyped (Message.pair_spake_a m) = All IsU8 m
IsTyped (Message.pair_spake_b m) = All IsU8 m
IsTyped (Message.pair_cert_exchange c h) = All IsU8 c × All IsU8 h × (length h ≡ 32)
IsTyped Message.pair_accepted = Unit {0}
IsTyped (Message.pair_rejected r) = IsU8 r
