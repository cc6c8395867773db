-- ===== src/Wire/MsgType.antt =====
-- The `msg_type` byte of each message, from crates/core/src/wire/mod.rs.
use kmwarp.Base.{ℕ}

abbrev pub hello : ℕ
hello = 0x01

abbrev pub hello_ack : ℕ
hello_ack = 0x02

abbrev pub mouse_move_rel : ℕ
mouse_move_rel = 0x10

abbrev pub mouse_button : ℕ
mouse_button = 0x11

abbrev pub mouse_wheel : ℕ
mouse_wheel = 0x12

abbrev pub key_event : ℕ
key_event = 0x20

abbrev pub clipboard_text : ℕ
clipboard_text = 0x30

abbrev pub take_control : ℕ
take_control = 0x40

abbrev pub release_control : ℕ
release_control = 0x41

abbrev pub pair_spake_a : ℕ
pair_spake_a = 0x50

abbrev pub pair_spake_b : ℕ
pair_spake_b = 0x51

abbrev pub pair_cert_exchange : ℕ
pair_cert_exchange = 0x52

abbrev pub pair_accepted : ℕ
pair_accepted = 0x53

abbrev pub pair_rejected : ℕ
pair_rejected = 0x54

abbrev pub echo_ping : ℕ
echo_ping = 0x70

abbrev pub echo_pong : ℕ
echo_pong = 0x71

abbrev pub heartbeat : ℕ
heartbeat = 0xfe

abbrev pub bye : ℕ
bye = 0xff
