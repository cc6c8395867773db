-- ===== src/Wire/Connection/Delivery.antt =====
-- Frames arrive as they were sent, however the byte stream is cut into reads.
use kmwarp.Base.{
  ℕ, zero, suc, ◌-◌, ◌≤◌, ◌<◌, ◌≡◌, refl, ap, sym, ◌∙◌, List, [], ◌∷◌, ◌++◌, length, length-append,
  Result, ok, err, some, none, arith, append_assoc, append-nil, All,
}
use mathlib.Core.Path.{ap₂, subst}
use native.Mathlib.Decide.{dec_le}
use native.Mathlib.Nat.{sub-zero}
use kmwarp.Wire.{Message, IsTyped}
use kmwarp.Wire.Decode.{decode_frame}
use kmwarp.Wire.Frame.{frame, Fits, encode_frame-frame}
use kmwarp.Wire.RoundTrip.{decode_frame-frame}
use kmwarp.Wire.Stream.{append_split, decode_frame_incomplete}
use kmwarp.Wire.Connection.{
  Read, bytes, failed, ConnectionError, disconnected, FrameReader, FrameWriter, write_if, flush,
  then_loop, collect, read_frame_from, read_frame, write_frame, encoder_loop, read_all,
}

abbrev reader : List ℕ → List Read → FrameReader
reader buf rs = record { read_buf = buf; reads = rs }

-- Reads that each bring something, and their bytes.
abbrev pub IsLive : Read → Type 0
IsLive (bytes bs) = 0 < length bs
IsLive failed = Path ℕ 0 1

abbrev pub content : List Read → List ℕ
content [] = []
content (bytes bs ∷ rs) = bs ++ content rs
content (failed ∷ rs) = content rs

abbrev pub frames : List Message → List ℕ
frames [] = []
frames (m ∷ ms) = frame m ++ frames ms

abbrev pub IsSendable : Message → Type 0
IsSendable m = IsTyped m × Fits m

-- What is left to be read, in the buffer or in the socket.
abbrev pub pending : FrameReader → List ℕ
pending r = r.read_buf ++ content r.reads

-- When the buffer holds a frame, the socket is not asked.
read_frame_from_ready :
    (m : Message) (buf rest : List ℕ) (rs : List Read)
    → decode_frame buf ≡ (ok (some m), rest)
    → read_frame_from buf rs ≡ (ok m, reader rest rs)
unfolding read_frame_from
read_frame_from_ready m buf rest [] h = rw h
read_frame_from_ready m buf rest (failed ∷ rs) h = rw h
read_frame_from_ready m buf rest (bytes [] ∷ rs) h = rw h
read_frame_from_ready m buf rest (bytes (x ∷ xs) ∷ rs) h = rw h

-- When it does not, the next read joins it.
read_frame_from_wait :
    (buf xs : List ℕ) (x : ℕ) (rs : List Read)
    → decode_frame buf ≡ (ok none, buf)
    → read_frame_from buf (bytes (x ∷ xs) ∷ rs) ≡ read_frame_from (buf ++ (x ∷ xs)) rs
unfolding read_frame_from
read_frame_from_wait buf xs x rs h = rw h

read_frame_from_closed :
    (buf : List ℕ) (rs : List Read)
    → All IsLive rs
    → buf ++ content rs ≡ []
    → read_frame_from buf rs ≡ (err disconnected, reader [] [])
unfolding read_frame_from decode_frame
read_frame_from_closed [] [] live e = refl
read_frame_from_closed (b ∷ bs) [] live e = cc
read_frame_from_closed buf (failed ∷ rs) live e = absurd (omega arith)
read_frame_from_closed buf (bytes [] ∷ rs) live e = absurd (omega arith)
read_frame_from_closed [] (bytes (x ∷ xs) ∷ rs) live e = cc
read_frame_from_closed (b ∷ bs) (bytes (x ∷ xs) ∷ rs) live e = cc

-- The outcome that is wanted of a read: the message, with `more` still pending.
abbrev pub Delivers : Message → List ℕ → Result Message ConnectionError × FrameReader → Type 0
Delivers m more out =
    (r : FrameReader) × (out ≡ (ok m, r)) × All IsLive r.reads × (pending r ≡ more)

Delivers-ready :
    (m : Message) (more buf : List ℕ) (rs : List Read)
    → IsSendable m
    → All IsLive rs
    → buf ++ content rs ≡ frame m ++ more
    → length (frame m) ≤ length buf
    → Delivers m more (read_frame_from buf rs)
Delivers-ready m more buf rs (typed, fits) live e enough =
    let (k, p, q) = append_split (frame m) buf (content rs) more e enough in
    (
      reader k rs,
      read_frame_from_ready m buf k rs (
          subst (λ b. decode_frame b ≡ (ok (some m), k)) (sym p)
            (decode_frame-frame m k typed fits)),
      live,
      sym q,
    )

-- Whatever nonempty reads bring the bytes of a typed message that fits a frame, after what the buffer
-- already holds: the message is returned, and what follows it is pending.
pub read_frame_from-frame :
    (m : Message) (more buf : List ℕ) (rs : List Read)
    → IsSendable m
    → All IsLive rs
    → buf ++ content rs ≡ frame m ++ more
    → Delivers m more (read_frame_from buf rs)
read_frame_from-frame m more buf [] good live e =
    Delivers-ready m more buf [] good live e
      (omega (arith, ap length (sym (append-nil buf) ∙ e), length-append (frame m) more))
read_frame_from-frame m more buf (failed ∷ rs) good live e = absurd (omega arith)
read_frame_from-frame m more buf (bytes [] ∷ rs) good live e = absurd (omega arith)
read_frame_from-frame m more buf (bytes (x ∷ xs) ∷ rs) good live e =
    elim (dec_le (length (frame m)) (length buf)) [
      | yes enough ↦ Delivers-ready m more buf (bytes (x ∷ xs) ∷ rs) good live e enough
      | no short ↦
          let wait =
            decode_frame_incomplete m buf (x ∷ (xs ++ content rs)) more good.1 e (omega arith) in
          let (r, done, live', left) =
            read_frame_from-frame m more (buf ++ (x ∷ xs)) rs good live.1
              (append_assoc buf (x ∷ xs) (content rs) ∙ e) in
          (r, read_frame_from_wait buf xs x rs wait ∙ done, live', left)
    ]

-- Whatever nonempty reads bring the bytes of the frames of typed messages that fit, the loop hands
-- over the messages in order, and then reports that the peer is gone.
read_all-frames :
    (ms : List Message) (r : FrameReader)
    → All IsSendable ms
    → All IsLive r.reads
    → pending r ≡ frames ms
    → read_all (suc (length ms)) r ≡ (ms, some disconnected)
unfolding read_all read_frame
read_all-frames [] r good live e =
    rw (read_frame_from_closed r.read_buf r.reads live e, read_all, collect)
read_all-frames (m ∷ ms) r good live e =
    let (r', done, live', left) =
      read_frame_from-frame m (frames ms) r.read_buf r.reads good.0 live e in
    rw (done, read_all, collect)
      (ap (λ out. (m ∷ out.0, out.1)) (read_all-frames ms r' good.1 live' left))

write_if-ok :
    (n : ℕ) (bs : List ℕ) (w : FrameWriter)
    → 0 < n
    → write_if n bs w ≡ (ok tt, record { written = w.written ++ bs; alive = n - 1 })
write_if-ok zero bs w h = absurd (omega arith)
write_if-ok (suc n) bs w h =
    ap (λ k. (ok tt, record { written = w.written ++ bs; alive = k })) (omega arith)

pub write_frame-frame :
    (m : Message) (w : FrameWriter)
    → IsSendable m
    → 0 < w.alive
    → write_frame m w ≡ (ok tt, record { written = w.written ++ frame m; alive = w.alive - 1 })
unfolding write_frame
write_frame-frame m w good room =
    rw (encode_frame-frame m [] good.0 good.1, write_frame, flush)
      (write_if-ok w.alive (frame m) w room)

-- While the socket lasts, the encoder writes the frames of typed messages that fit one after the
-- other and ends well.
encoder_loop-frames :
    (ms : List Message) (w : FrameWriter)
    → All IsSendable ms
    → length ms ≤ w.alive
    → encoder_loop ms w
      ≡ (ok tt, record { written = w.written ++ frames ms; alive = w.alive - length ms })
unfolding encoder_loop
encoder_loop-frames [] w good room = rw (append-nil, sub-zero)
encoder_loop-frames (m ∷ ms) w good room =
    rw (write_frame-frame m w good.0 (omega arith), encoder_loop, then_loop)
      (rw
        (encoder_loop-frames ms (record { written = w.written ++ frame m; alive = w.alive - 1 })
          good.1 (omega arith))
        (ap₂ (λ bs k. (ok tt, record { written = bs; alive = k }))
          (append_assoc w.written (frame m) (frames ms)) (omega arith)))

-- From the queue of one side to the loop of the other: typed messages that fit a frame, written by an
-- encoder whose socket lasts that long, are the messages that a reader of these bytes hands over, in
-- order, however the bytes are cut into nonempty reads; then it reports the end of the stream.
pub read_all-encoder_loop :
    (ms : List Message) (alive : ℕ) (reads : List Read)
    → All IsSendable ms
    → length ms ≤ alive
    → All IsLive reads
    → content reads ≡ (encoder_loop ms (record { written = []; alive = alive })).1.written
    → read_all (suc (length ms)) (reader [] reads) ≡ (ms, some disconnected)
read_all-encoder_loop ms alive reads good room live e =
    read_all-frames ms (reader [] reads) good live
      (e ∙ ap (λ out. out.1.written) (encoder_loop-frames ms _ good room))
