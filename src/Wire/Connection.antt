-- ===== src/Wire/Connection.antt =====
-- crates/server/src/net/connection.rs, crates/client/src/net/connection.rs and the `encoder_loop` of
-- both `net/pump.rs`: frames over a byte stream. The socket is outside: what its reads will return
-- is a list, and what is written to it is a list of bytes.
pub mod Delivery
use kmwarp.Base.{ℕ, zero, suc, List, [], ◌∷◌, ◌++◌, Result, ok, err, Option, some, none}
use kmwarp.Wire.{Message, WireError}
use kmwarp.Wire.Encode.{encode_frame}
use kmwarp.Wire.Decode.{decode_frame}

-- One `read_buf` of the socket: the bytes that it appends, or a failure. No bytes is end of file,
-- and so is the end of the list.
pub data Read : Type 0 where
  bytes : List ℕ → Read
  failed : Read

-- `ServerError` and `ClientError`.
pub data ConnectionError : Type 0 where
  disconnected : ConnectionError
  wire : WireError → ConnectionError
  io : ConnectionError

-- The read side: the buffer and the reads that are still to come.
pub record FrameReader : Type 0 where
  pub read_buf : List ℕ
  pub reads : List Read

abbrev pub reader : List ℕ → List Read → FrameReader
reader buf rs = record { read_buf = buf; reads = rs }

-- What a round of `read_frame` does with the outcome of `decode_frame`; `more` is the rest of the
-- loop, entered when the buffer holds no whole frame.
abbrev pub settle :
    Result (Option Message) WireError × List ℕ
    → List Read
    → (List ℕ → Result Message ConnectionError × FrameReader)
    → Result Message ConnectionError × FrameReader
settle (ok (some msg), buf) rs more = (ok msg, reader buf rs)
settle (ok none, buf) rs more = more buf
settle (err e, buf) rs more = (err (wire e), reader buf rs)

-- `read_frame` of `Connection` and of `FrameReader`: decode, or read more and try again.
unfoldable pub read_frame_from : List ℕ → List Read → Result Message ConnectionError × FrameReader
read_frame_from buf [] = settle (decode_frame buf) [] (λ b. (err disconnected, reader b []))
read_frame_from buf (failed ∷ rs) =
    settle (decode_frame buf) (failed ∷ rs) (λ b. (err io, reader b rs))
read_frame_from buf (bytes [] ∷ rs) =
    settle (decode_frame buf) (bytes [] ∷ rs) (λ b. (err disconnected, reader b rs))
read_frame_from buf (bytes (x ∷ xs) ∷ rs) =
    settle (decode_frame buf) (bytes (x ∷ xs) ∷ rs) (λ b. read_frame_from (b ++ (x ∷ xs)) rs)

unfoldable pub read_frame : FrameReader → Result Message ConnectionError × FrameReader
unfolding read_frame_from
read_frame self = read_frame_from self.read_buf self.reads

-- The write side: what was written, and how many more writes succeed before the socket dies.
pub record FrameWriter : Type 0 where
  pub written : List ℕ
  pub alive : ℕ

abbrev pub write_if : ℕ → List ℕ → FrameWriter → Result (Unit {0}) ConnectionError × FrameWriter
write_if zero bs w = (err io, w)
write_if (suc n) bs w = (ok tt, record { written = w.written ++ bs; alive = n })

abbrev pub write_all : List ℕ → FrameWriter → Result (Unit {0}) ConnectionError × FrameWriter
write_all bs w = write_if w.alive bs w

-- The `?` behind `encode_frame`, then the write.
abbrev pub flush :
    Result (Unit {0}) WireError × List ℕ
    → FrameWriter
    → Result (Unit {0}) ConnectionError × FrameWriter
flush (ok _, scratch) self = write_all scratch self
flush (err e, scratch) self = (err (wire e), self)

-- The frame is made in a cleared scratch buffer, and written as a whole.
unfoldable pub write_frame : Message → FrameWriter → Result (Unit {0}) ConnectionError × FrameWriter
write_frame msg self = flush (encode_frame msg []) self

abbrev pub then_loop :
    Result (Unit {0}) ConnectionError × FrameWriter
    → (FrameWriter → Result (Unit {0}) ConnectionError × FrameWriter)
    → Result (Unit {0}) ConnectionError × FrameWriter
then_loop (ok _, writer) more = more writer
then_loop (err e, writer) more = (err e, writer)

-- The messages of `rx`, until it closes or a write fails.
unfoldable pub encoder_loop :
    List Message → FrameWriter → Result (Unit {0}) ConnectionError × FrameWriter
encoder_loop [] writer = (ok tt, writer)
encoder_loop (msg ∷ rx) writer = then_loop (write_frame msg writer) (λ w. encoder_loop rx w)

abbrev pub collect :
    Result Message ConnectionError × FrameReader
    → (FrameReader → List Message × Option ConnectionError)
    → List Message × Option ConnectionError
collect (ok msg, r) more = (msg ∷ (more r).0, (more r).1)
collect (err e, r) more = ([], some e)

-- A task that reads frames until an error ends it, for at most so many rounds.
unfoldable pub read_all : ℕ → FrameReader → List Message × Option ConnectionError
read_all zero self = ([], none)
read_all (suc fuel) self = collect (read_frame self) (λ r. read_all fuel r)
