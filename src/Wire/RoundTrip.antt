-- ===== src/Wire/RoundTrip.antt =====
-- What `encode_frame` writes, `decode_frame` reads back.
use kmwarp.Base.{
  ℕ, ◌+◌, ◌≤◌, ◌≡◌, suc, refl, ◌∙◌, List, [], ◌++◌, ℤ, pos, negsuc, length, length-append, drop,
  usize_max, le→ltb, le→leb, sym, is_utf8, ap, append-nil, ok, some, arith, true, false, IsU16,
  IsU32, IsU64, IsI16, take-append_self, drop-append_self,
}
use kmwarp.Wire.{Message, max_payload_len, IsTyped}
use kmwarp.Wire.Encode.{le16, le32, le64, i16_bits, encode_frame}
use kmwarp.Wire.Decode.{
  from_le_bytes, i16_of_bits, decode_payload, decode_frame, from_utf8, bool_of_byte, return, run,
  value, Reader, PayloadReader, ◌>>=◌, decode_hello, decode_clipboard_text, decode_pair_spake_a,
  decode_pair_spake_b, decode_pair_cert_exchange, read_bytes, read_u8, read_u16_le, read_i16_le,
  read_u32_le, read_u64_le,
}
use kmwarp.Wire.Frame.{msg_type_of, payload, frame, Fits, encode_frame-frame, encode_frame_too_long}
use native.Mathlib.Decide.{dec_le}

pub from_le_bytes-le16 : (v : ℕ) → IsU16 v → from_le_bytes (le16 v) ≡ v
from_le_bytes-le16 v h = omega arith

from_le_bytes-le32 : (v : ℕ) → IsU32 v → from_le_bytes (le32 v) ≡ v
from_le_bytes-le32 v h = omega arith

from_le_bytes-le64 : (v : ℕ) → IsU64 v → from_le_bytes (le64 v) ≡ v
from_le_bytes-le64 v h = omega arith

i16_of_bits-i16_bits : (v : ℤ) → IsI16 v → i16_of_bits (from_le_bytes (le16 (i16_bits v))) ≡ v
i16_of_bits-i16_bits (pos n) h = ground arith
i16_of_bits-i16_bits (negsuc n) h = ground arith

-- A step that reads `a` hands over to the steps behind it.
>>=-ok :
    {A B : Type 0} (m : Reader A) (f : A → Reader B) (r r' : PayloadReader) (a : A)
    → m r ≡ ok (a, r')
    → (m >>= f) r ≡ f a r'
>>=-ok m f r r' a e = rw (e, ◌>>=◌)

value->>= :
    {A B : Type 0} (m : Reader A) (f : A → Reader B) (r r' : PayloadReader) (a : A)
    → m r ≡ ok (a, r')
    → value ((m >>= f) r) ≡ value (f a r')
value->>= m f r r' a e = ap value (>>=-ok m f r r' a e)

-- A read at a position where the wanted bytes stand.
read_bytes-ok :
    (bytes : List ℕ) (i n : ℕ) (xs rest : List ℕ)
    → drop i bytes ≡ xs ++ rest
    → length xs ≡ n
    → i + n ≤ length bytes
    → length bytes ≤ 65535
    → read_bytes n (record { bytes = bytes; at = i })
      ≡ ok (xs, record { bytes = bytes; at = i + n })
unfolding read_bytes
read_bytes-ok bytes i n xs rest here len fits small = rw (
  le→ltb usize_max (i + n) (omega arith),
  le→leb (i + n) (length bytes) fits,
  here,
  ← len,
  take-append_self xs rest,
)

read_u16_le-ok :
    (bytes : List ℕ) (i v : ℕ) (rest : List ℕ)
    → IsU16 v
    → drop i bytes ≡ le16 v ++ rest
    → i + 2 ≤ length bytes
    → length bytes ≤ 65535
    → read_u16_le (record { bytes = bytes; at = i }) ≡ ok (v, record { bytes = bytes; at = i + 2 })
unfolding read_u16_le
read_u16_le-ok bytes i v rest range here fits small =
    >>=-ok (read_bytes 2) (λ bs. return (from_le_bytes bs)) (record { bytes = bytes; at = i }) _ _
      (read_bytes-ok bytes i 2 (le16 v) rest here refl fits small)
    ∙ rw (from_le_bytes-le16 v range)

from_utf8-ok : (bs : List ℕ) (r : PayloadReader) → is_utf8 bs ≡ true → from_utf8 bs r ≡ ok (tt, r)
unfolding from_utf8
from_utf8-ok bs r h = rw h

module _ (v : ℕ) (name : List ℕ) where
  decode_hello-payload :
      IsTyped (Message.hello v name)
      → Fits (Message.hello v name)
      → run decode_hello (payload (Message.hello v name)) ≡ ok (Message.hello v name)
  unfolding decode_hello
  decode_hello-payload typed fits =
      let bytes = payload (Message.hello v name) in
      value->>= read_u16_le _ _ _ _ (read_u16_le-ok bytes 0 v _ typed.0 refl (omega arith) fits)
      ∙ value->>= read_u16_le _ _ _ _
          (read_u16_le-ok bytes 2 (length name) name (omega arith) refl (omega arith) fits)
      ∙ value->>= (read_bytes _) _ _ _ _ (
          read_bytes-ok bytes 4 (length name) name [] (sym (append-nil name)) refl (omega arith)
            fits)
      ∙ value->>= (from_utf8 name) _ _ _ _ (from_utf8-ok name _ typed.2)

module _ (f : ℕ) (bs : List ℕ) where
  decode_clipboard_text-payload :
      Fits (Message.clipboard_text f bs)
      → run decode_clipboard_text (payload (Message.clipboard_text f bs))
        ≡ ok (Message.clipboard_text f bs)
  unfolding decode_clipboard_text read_u8
  decode_clipboard_text-payload fits =
      let bytes = payload (Message.clipboard_text f bs) in
      value->>= read_u16_le _ _ _ _
        (read_u16_le-ok bytes 1 (length bs) bs (omega arith) refl (omega arith) fits)
      ∙ value->>= (read_bytes _) _ _ _ _
          (read_bytes-ok bytes 3 (length bs) bs [] (sym (append-nil bs)) refl (omega arith) fits)

module _ (m : List ℕ) where
  decode_pair_spake_a-payload :
      Fits (Message.pair_spake_a m)
      → run decode_pair_spake_a (payload (Message.pair_spake_a m)) ≡ ok (Message.pair_spake_a m)
  unfolding decode_pair_spake_a
  decode_pair_spake_a-payload fits =
      let bytes = payload (Message.pair_spake_a m) in
      value->>= read_u16_le _ _ _ _
        (read_u16_le-ok bytes 0 (length m) m (omega arith) refl (omega arith) fits)
      ∙ value->>= (read_bytes _) _ _ _ _
          (read_bytes-ok bytes 2 (length m) m [] (sym (append-nil m)) refl (omega arith) fits)

  decode_pair_spake_b-payload :
      Fits (Message.pair_spake_b m)
      → run decode_pair_spake_b (payload (Message.pair_spake_b m)) ≡ ok (Message.pair_spake_b m)
  unfolding decode_pair_spake_b
  decode_pair_spake_b-payload fits =
      let bytes = payload (Message.pair_spake_b m) in
      value->>= read_u16_le _ _ _ _
        (read_u16_le-ok bytes 0 (length m) m (omega arith) refl (omega arith) fits)
      ∙ value->>= (read_bytes _) _ _ _ _
          (read_bytes-ok bytes 2 (length m) m [] (sym (append-nil m)) refl (omega arith) fits)

module _ (c h : List ℕ) where
  -- Behind the two length bytes and the certificate stands the tag.
  decode_pair_cert_exchange-payload :
      IsTyped (Message.pair_cert_exchange c h)
      → Fits (Message.pair_cert_exchange c h)
      → run decode_pair_cert_exchange (payload (Message.pair_cert_exchange c h))
        ≡ ok (Message.pair_cert_exchange c h)
  unfolding decode_pair_cert_exchange
  decode_pair_cert_exchange-payload typed fits =
      let bytes = payload (Message.pair_cert_exchange c h) in
      let size = length-append c h in
      value->>= read_u16_le _ _ _ _
        (read_u16_le-ok bytes 0 (length c) (c ++ h) (omega (arith, size)) refl (omega arith) fits)
      ∙ value->>= (read_bytes _) _ _ _ _
          (read_bytes-ok bytes 2 (length c) c h refl refl (omega (arith, size)) fits)
      ∙ value->>= (read_bytes _) _ _ _ _
          (read_bytes-ok bytes (2 + length c) 32 h [] tail typed.2 (omega (arith, size)) fits)
    where
      tail : drop (2 + length c) (payload (Message.pair_cert_exchange c h)) ≡ h ++ []
      tail =
          rw (append-nil) (
            let e : 2 + length c ≡ suc (suc (length c)) = omega arith in
            rw e (drop-append_self c h))

-- The payload of a message decodes to the message.
decode_payload-payload :
    (m : Message) → IsTyped m → Fits m → decode_payload (msg_type_of m) (payload m) ≡ ok m
unfolding decode_payload bool_of_byte read_u8 read_u16_le read_i16_le read_u32_le read_u64_le
decode_payload-payload (Message.hello v name) typed fits = decode_hello-payload v name typed fits
decode_payload-payload (Message.hello_ack true w h) typed fits =
    cc (from_le_bytes-le16 w typed.0, from_le_bytes-le16 h typed.1)
decode_payload-payload (Message.hello_ack false w h) typed fits =
    cc (from_le_bytes-le16 w typed.0, from_le_bytes-le16 h typed.1)
decode_payload-payload (Message.mouse_move_rel dx dy) typed fits =
    cc (i16_of_bits-i16_bits dx typed.0, i16_of_bits-i16_bits dy typed.1)
decode_payload-payload (Message.mouse_button b s) typed fits = refl
decode_payload-payload (Message.mouse_wheel dx dy) typed fits =
    cc (i16_of_bits-i16_bits dx typed.0, i16_of_bits-i16_bits dy typed.1)
decode_payload-payload (Message.key_event h s m) typed fits = cc (from_le_bytes-le16 h typed.0)
decode_payload-payload (Message.clipboard_text f bs) typed fits =
    decode_clipboard_text-payload f bs fits
decode_payload-payload (Message.take_control y) typed fits = cc (from_le_bytes-le16 y typed)
decode_payload-payload (Message.release_control y) typed fits = cc (from_le_bytes-le16 y typed)
decode_payload-payload (Message.heartbeat n) typed fits = cc (from_le_bytes-le32 n typed)
decode_payload-payload (Message.bye r) typed fits = refl
decode_payload-payload (Message.echo_ping t) typed fits = cc (from_le_bytes-le64 t typed)
decode_payload-payload (Message.echo_pong t) typed fits = cc (from_le_bytes-le64 t typed)
decode_payload-payload (Message.pair_spake_a m) typed fits = decode_pair_spake_a-payload m fits
decode_payload-payload (Message.pair_spake_b m) typed fits = decode_pair_spake_b-payload m fits
decode_payload-payload (Message.pair_cert_exchange c h) typed fits =
    decode_pair_cert_exchange-payload c h typed fits
decode_payload-payload Message.pair_accepted typed fits = refl
decode_payload-payload (Message.pair_rejected r) typed fits = refl

-- A frame at the front of the buffer is decoded, and what stands behind it is left in the buffer.
pub decode_frame-frame :
    (m : Message) (rest : List ℕ)
    → IsTyped m
    → Fits m
    → decode_frame (frame m ++ rest) ≡ (ok (some m), rest)
unfolding decode_frame
decode_frame-frame m rest typed fits =
    let size = length-append (payload m) rest in
    let len = from_le_bytes-le16 (length (payload m)) (omega arith) in
    let skip : 3 + from_le_bytes (le16 (length (payload m)))
        ≡ suc (suc (suc (length (payload m)))) =
      omega arith in
    rw
      (
        len,
        le→ltb (length (frame m ++ rest)) (3 + length (payload m)) (omega (arith, size)),
        take-append_self (payload m) rest,
        decode_payload-payload m typed fits,
      )
      (rw skip (ap (λ left. (ok (some m), left)) (drop-append_self (payload m) rest)))

-- Decoding what was encoded of a typed message gives the message back, with the bytes behind it
-- untouched.
pub decode_frame-encode_frame :
    (m : Message) (rest bytes : List ℕ)
    → IsTyped m
    → encode_frame m [] ≡ (ok tt, bytes)
    → decode_frame (bytes ++ rest) ≡ (ok (some m), rest)
decode_frame-encode_frame m rest bytes typed done =
    elim (dec_le (length (payload m)) max_payload_len) [
      | yes fits ↦
          let same : frame m ≡ bytes = cc (encode_frame-frame m [] typed fits) in
          rw (← same) (decode_frame-frame m rest typed fits)
      | no big ↦ cc (encode_frame_too_long m [] typed (omega arith))
    ]
