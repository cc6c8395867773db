-- ===== src/Wire/Frame.antt =====
-- The layout of a frame, written down once and apart from the codec: the type byte, the length of
-- the payload as a little-endian `u16`, the payload.
use kmwarp.Base.{
  ℕ, min, usize_max, saturating_add_usize, ◌≤◌, ◌<◌, ◌≡◌, List, [], ◌∷◌, ◌++◌, length,
  length-append, if◌then◌else◌, ok, err, arith, append_assoc,
}
use kmwarp.Wire.{Message, WireError, IsTyped, max_payload_len}
use kmwarp.Wire.MsgType
use kmwarp.Wire.Encode.{
  le16, le32, le64, i16_bits, check_payload_len, try_u16, too_long, encode_frame,
}

abbrev pub msg_type_of : Message → ℕ
msg_type_of (Message.hello v name) = MsgType.hello
msg_type_of (Message.hello_ack a w h) = MsgType.hello_ack
msg_type_of (Message.mouse_move_rel dx dy) = MsgType.mouse_move_rel
msg_type_of (Message.mouse_button b s) = MsgType.mouse_button
msg_type_of (Message.mouse_wheel dx dy) = MsgType.mouse_wheel
msg_type_of (Message.key_event h s m) = MsgType.key_event
msg_type_of (Message.clipboard_text f bs) = MsgType.clipboard_text
msg_type_of (Message.take_control y) = MsgType.take_control
msg_type_of (Message.release_control y) = MsgType.release_control
msg_type_of (Message.heartbeat n) = MsgType.heartbeat
msg_type_of (Message.bye r) = MsgType.bye
msg_type_of (Message.echo_ping t) = MsgType.echo_ping
msg_type_of (Message.echo_pong t) = MsgType.echo_pong
msg_type_of (Message.pair_spake_a m) = MsgType.pair_spake_a
msg_type_of (Message.pair_spake_b m) = MsgType.pair_spake_b
msg_type_of (Message.pair_cert_exchange c h) = MsgType.pair_cert_exchange
msg_type_of Message.pair_accepted = MsgType.pair_accepted
msg_type_of (Message.pair_rejected r) = MsgType.pair_rejected

abbrev pub payload : Message → List ℕ
payload (Message.hello v name) = le16 v ++ (le16 (length name) ++ name)
payload (Message.hello_ack a w h) = (if a then 1 else 0) ∷ (le16 w ++ le16 h)
payload (Message.mouse_move_rel dx dy) = le16 (i16_bits dx) ++ le16 (i16_bits dy)
payload (Message.mouse_button b s) = b ∷ s ∷ []
payload (Message.mouse_wheel dx dy) = le16 (i16_bits dx) ++ le16 (i16_bits dy)
payload (Message.key_event h s m) = le16 h ++ (s ∷ m ∷ [])
payload (Message.clipboard_text f bs) = f ∷ (le16 (length bs) ++ bs)
payload (Message.take_control y) = le16 y
payload (Message.release_control y) = le16 y
payload (Message.heartbeat n) = le32 n
payload (Message.bye r) = r ∷ []
payload (Message.echo_ping t) = le64 t
payload (Message.echo_pong t) = le64 t
payload (Message.pair_spake_a m) = le16 (length m) ++ m
payload (Message.pair_spake_b m) = le16 (length m) ++ m
payload (Message.pair_cert_exchange c h) = le16 (length c) ++ (c ++ h)
payload Message.pair_accepted = []
payload (Message.pair_rejected r) = r ∷ []

abbrev pub frame : Message → List ℕ
frame m = msg_type_of m ∷ (le16 (length (payload m)) ++ payload m)

-- The message has a frame: its payload is no longer than the length field can say.
abbrev pub Fits : Message → Type 0
Fits m = length (payload m) ≤ max_payload_len

-- Both length checks pass at a payload that fits, whatever the order of its sums.
check_payload_len-ok :
    (len p : ℕ) → min len usize_max ≡ p → p ≤ max_payload_len → check_payload_len len ≡ ok p
unfolding check_payload_len
check_payload_len-ok len p e h = ground arith

try_u16-ok : (len : ℕ) → len ≤ 65535 → try_u16 len ≡ ok len
unfolding try_u16
try_u16-ok len h = ground arith

-- A typed message that fits is encoded: its frame, a type byte, the length in two bytes and the
-- payload, joins the buffer.
pub encode_frame-frame :
    (m : Message) (buf : List ℕ) → IsTyped m → Fits m → encode_frame m buf ≡ (ok tt, buf ++ frame m)
unfolding encode_frame
encode_frame-frame (Message.hello v name) buf typed fits =
    rw
      (
        check_payload_len-ok (saturating_add_usize 4 (length name))
            (length (payload (Message.hello v name))) (omega arith) fits,
        try_u16-ok (length name) (omega arith),
      )
      (simp append_assoc)
encode_frame-frame (Message.hello_ack a w h) buf typed fits = simp append_assoc
encode_frame-frame (Message.mouse_move_rel dx dy) buf typed fits = simp append_assoc
encode_frame-frame (Message.mouse_button b s) buf typed fits = simp append_assoc
encode_frame-frame (Message.mouse_wheel dx dy) buf typed fits = simp append_assoc
encode_frame-frame (Message.key_event h s m) buf typed fits = simp append_assoc
encode_frame-frame (Message.clipboard_text f bs) buf typed fits =
    rw
      (
        check_payload_len-ok (saturating_add_usize 3 (length bs))
            (length (payload (Message.clipboard_text f bs))) (omega arith) fits,
        try_u16-ok (length bs) (omega arith),
      )
      (simp append_assoc)
encode_frame-frame (Message.take_control y) buf typed fits = simp append_assoc
encode_frame-frame (Message.release_control y) buf typed fits = simp append_assoc
encode_frame-frame (Message.heartbeat n) buf typed fits = simp append_assoc
encode_frame-frame (Message.bye r) buf typed fits = simp append_assoc
encode_frame-frame (Message.echo_ping t) buf typed fits = simp append_assoc
encode_frame-frame (Message.echo_pong t) buf typed fits = simp append_assoc
encode_frame-frame (Message.pair_spake_a m) buf typed fits =
    rw
      (
        check_payload_len-ok (saturating_add_usize 2 (length m))
            (length (payload (Message.pair_spake_a m))) (omega arith) fits,
        try_u16-ok (length m) (omega arith),
      )
      (simp append_assoc)
encode_frame-frame (Message.pair_spake_b m) buf typed fits =
    rw
      (
        check_payload_len-ok (saturating_add_usize 2 (length m))
            (length (payload (Message.pair_spake_b m))) (omega arith) fits,
        try_u16-ok (length m) (omega arith),
      )
      (simp append_assoc)
encode_frame-frame (Message.pair_cert_exchange c h) buf typed fits =
    rw
      (
        check_payload_len-ok (saturating_add_usize (saturating_add_usize 2 (length c)) 32)
            (length (payload (Message.pair_cert_exchange c h))) (omega (arith, length-append c h))
            fits,
        try_u16-ok (length c) (omega (arith, length-append c h)),
      )
      (simp append_assoc)
encode_frame-frame Message.pair_accepted buf typed fits = simp append_assoc
encode_frame-frame (Message.pair_rejected r) buf typed fits = simp append_assoc

check_payload_len-err :
    (len : ℕ)
    → max_payload_len < len
    → check_payload_len len ≡ err (WireError.payload_too_long 65535 max_payload_len)
unfolding check_payload_len too_long
check_payload_len-err len h = ground arith

-- A typed message that does not fit is refused with the saturated length, and the buffer is untouched.
pub encode_frame_too_long :
    (m : Message) (buf : List ℕ)
    → IsTyped m
    → max_payload_len < length (payload m)
    → encode_frame m buf ≡ (err (WireError.payload_too_long 65535 max_payload_len), buf)
unfolding encode_frame
encode_frame_too_long (Message.hello v name) buf typed big =
    rw (check_payload_len-err (saturating_add_usize 4 (length name)) (omega arith))
encode_frame_too_long (Message.clipboard_text f bs) buf typed big =
    rw (check_payload_len-err (saturating_add_usize 3 (length bs)) (omega arith))
encode_frame_too_long (Message.pair_spake_a m) buf typed big =
    rw (check_payload_len-err (saturating_add_usize 2 (length m)) (omega arith))
encode_frame_too_long (Message.pair_spake_b m) buf typed big =
    rw (check_payload_len-err (saturating_add_usize 2 (length m)) (omega arith))
encode_frame_too_long (Message.pair_cert_exchange c h) buf typed big = rw (
    check_payload_len-err (saturating_add_usize (saturating_add_usize 2 (length c)) 32)
      (omega (arith, length-append c h)))
encode_frame_too_long _ buf typed big = absurd (omega arith)
