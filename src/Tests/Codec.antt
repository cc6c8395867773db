-- ===== src/Tests/Codec.antt =====
-- The wire codec, the stream of frames and the clipboard at concrete inputs.
use kmwarp.Base.{
  ℕ, suc, ◌<◌, ◌≡◌, ap, refl, true, List, [], ◌∷◌, ◌++◌, some, ok, All, length, arith, zero, IsU8,
  is_utf8,
}
use kmwarp.Wire.{Message, max_payload_len}
use kmwarp.Wire.Encode.{encode_frame}
use kmwarp.Wire.Decode.{decode_frame}
use kmwarp.Wire.Frame.{payload}
use kmwarp.Wire.RoundTrip.{decode_frame-encode_frame}
use kmwarp.Wire.Connection.{
  Read, bytes, disconnected, reader, read_all, read_frame_from, write_frame, encoder_loop,
}
use kmwarp.Wire.Connection.Delivery.{
  IsLive, IsSendable, Delivers, read_all-encoder_loop, read_frame_from-frame,
}
use kmwarp.Clipboard.{new, split, ingest_all}
use kmwarp.Clipboard.Assembly.{ingest_all-split}

abbrev beat : Message
beat = Message.heartbeat 7

abbrev beat_bytes : List ℕ
beat_bytes = 0xfe ∷ 4 ∷ 0 ∷ 7 ∷ 0 ∷ 0 ∷ 0 ∷ []

abbrev press : Message
press = Message.key_event 4 1 0

abbrev press_bytes : List ℕ
press_bytes = 0x20 ∷ 4 ∷ 0 ∷ 4 ∷ 0 ∷ 1 ∷ 0 ∷ []

abbrev queue : List Message
queue = beat ∷ press ∷ []

-- The two frames, cut in the middle of the first header and in the second payload.
abbrev cut_reads : List Read
cut_reads =
    bytes (0xfe ∷ 4 ∷ [])
    ∷ bytes (0 ∷ 7 ∷ 0 ∷ 0 ∷ 0 ∷ 0x20 ∷ 4 ∷ 0 ∷ 4 ∷ [])
    ∷ bytes (0 ∷ 1 ∷ 0 ∷ [])
    ∷ []

beat-IsSendable : IsSendable beat
beat-IsSendable = (omega arith, omega arith)

press-IsSendable : IsSendable press
press-IsSendable = ((omega arith, omega arith, omega arith), omega arith)

queue-IsSendable : All IsSendable queue
queue-IsSendable = (beat-IsSendable, (press-IsSendable, tt))

cut-IsLive : All IsLive cut_reads
cut-IsLive = (omega arith, (omega arith, (omega arith, tt)))

read_all-encoder_loop_example : read_all 3 (reader [] cut_reads) ≡ (queue, some disconnected)
unfolding encoder_loop encode_frame write_frame
read_all-encoder_loop_example =
    read_all-encoder_loop queue 2 cut_reads queue-IsSendable (omega arith) cut-IsLive refl

-- A heartbeat of which the header is buffered, and a key behind it.
abbrev rest_reads : List Read
rest_reads = bytes (0 ∷ 7 ∷ 0 ∷ []) ∷ bytes (0 ∷ 0 ∷ press_bytes) ∷ []

read_frame_from-frame_example :
    Delivers beat press_bytes (read_frame_from (0xfe ∷ 4 ∷ []) rest_reads)
read_frame_from-frame_example =
    read_frame_from-frame beat press_bytes (0xfe ∷ 4 ∷ []) rest_reads beat-IsSendable
      (omega arith, (omega arith, tt)) refl

decode_frame-encode_frame_example :
    decode_frame (beat_bytes ++ press_bytes) ≡ (ok (some beat), press_bytes)
unfolding encode_frame
decode_frame-encode_frame_example =
    decode_frame-encode_frame beat press_bytes beat_bytes (omega arith) refl

-- So many zeros.
unfoldable fill : ℕ → List ℕ
fill zero = []
fill (suc n) = 0 ∷ fill n

fill_bytes : (n : ℕ) → All IsU8 (fill n)
unfolding fill
fill_bytes zero = tt
fill_bytes (suc n) = (omega arith, fill_bytes n)

length-fill : (n : ℕ) → length (fill n) ≡ n
unfolding fill
length-fill zero = refl
length-fill (suc n) = ap suc (length-fill n)

fill_long : (n : ℕ) → 65535 < n → max_payload_len < length (payload (Message.pair_spake_a (fill n)))
fill_long n h = omega (arith, length-fill n)

-- "hé"
abbrev greeting : List ℕ
greeting = 104 ∷ 195 ∷ 169 ∷ []

ingest_all-split_example :
    ingest_all (record { buffer = 5 ∷ []; in_progress = true }) (split greeting)
    ≡ (new, greeting ∷ [])
unfolding is_utf8
ingest_all-split_example =
    ingest_all-split (record { buffer = 5 ∷ []; in_progress = true }) greeting refl
