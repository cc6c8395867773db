-- ===== src/Clipboard.antt =====
-- crates/core/src/clipboard.rs: text in frames of at most 4 KiB, their reassembly, and the guard
-- against echoes. A text is the list of its UTF-8 bytes.
pub mod Assembly
pub mod Echo
use kmwarp.Base.{
  ℕ, ◌+◌, ◌-◌, zero, suc, ◌&&◌, Bool, true, false, not, List, [], ◌∷◌, ◌++◌, Option, none, some,
  Result, ok, err, leb, ◌==◌, if◌then◌else◌, length, take, drop, bit_and, bit_or, is_utf8, bytes_eq,
}
use kmwarp.Wire.{Message}

abbrev pub chunk_size : ℕ
chunk_size = 4096

-- `ChunkFlags`
abbrev pub first : ℕ
first = 1

abbrev pub last : ℕ
last = 2

-- `from_bits_truncate` drops the reserved bits; `contains` on what is left.
unfoldable pub from_bits_truncate : ℕ → ℕ
from_bits_truncate bits = bit_and bits 3

unfoldable pub contains : ℕ → ℕ → Bool
contains flags flag = bit_and flags flag == flag

-- `bytes.chunks(CHUNK_SIZE)`, on fuel: each round takes `size` bytes.
unfoldable pub chunks_on : ℕ → ℕ → List ℕ → List (List ℕ)
chunks_on zero size bytes = []
chunks_on (suc fuel) size [] = []
chunks_on (suc fuel) size (b ∷ bs) = take size (b ∷ bs) ∷ chunks_on fuel size (drop size (b ∷ bs))

unfoldable pub chunks : ℕ → List ℕ → List (List ℕ)
unfolding chunks_on
chunks size bytes = chunks_on (length bytes) size bytes

abbrev pub flag_if : Bool → ℕ → ℕ
flag_if true flag = flag
flag_if false flag = 0

-- The frames of the chunks from index `i` on: `FIRST` at index 0, `LAST` at `last_idx`.
unfoldable pub number_from : ℕ → ℕ → List (List ℕ) → List Message
number_from i last_idx [] = []
number_from i last_idx (chunk ∷ rest) =
    Message.clipboard_text (bit_or (flag_if (i == 0) first) (flag_if (i == last_idx) last)) chunk
    ∷ number_from (i + 1) last_idx rest

-- `Chunker::split`
unfoldable pub split : List ℕ → List Message
unfolding number_from chunks
split text =
    let parts = chunks chunk_size text in
    if leb (length text) chunk_size
    then Message.clipboard_text (bit_or first last) text ∷ []
    else number_from 0 (length parts - 1) parts

pub record Reassembler : Type 0 where
  pub buffer : List ℕ
  pub in_progress : Bool

abbrev pub new : Reassembler
new = record { buffer = []; in_progress = false }

pub data ReassembleError : Type 0 where
  chunk_without_first not_utf8 : ReassembleError

-- The `FIRST` flag starts over, whatever was in progress.
abbrev pub start_if : Bool → Reassembler → Reassembler
start_if true self = record { buffer = []; in_progress = true }
start_if false self = self

-- The `LAST` flag takes the buffer and checks it.
abbrev pub finish_if : Bool → Reassembler → Result (Option (List ℕ)) ReassembleError × Reassembler
finish_if true self = (if is_utf8 self.buffer then ok (some self.buffer) else err not_utf8, new)
finish_if false self = (ok none, self)

unfoldable pub ingest_chunk :
    ℕ → List ℕ → Reassembler → Result (Option (List ℕ)) ReassembleError × Reassembler
unfolding from_bits_truncate contains
ingest_chunk chunk_flags bytes self =
    let flags = from_bits_truncate chunk_flags in
    let begun = start_if (contains flags first) self in
    if not begun.in_progress
    then (err chunk_without_first, begun)
    else finish_if (contains flags last) (record begun { buffer = begun.buffer ++ bytes })

unfoldable pub ingest :
    Reassembler → Message → Result (Option (List ℕ)) ReassembleError × Reassembler
unfolding ingest_chunk
ingest self (Message.clipboard_text chunk_flags bytes) = ingest_chunk chunk_flags bytes self
ingest self _ = (ok none, self)

-- The payloads that a receiving loop completes; it logs and drops the errors.
abbrev pub note : Result (Option (List ℕ)) ReassembleError → List (List ℕ) → List (List ℕ)
note (ok (some text)) texts = text ∷ texts
note _ texts = texts

abbrev pub absorb :
    Result (Option (List ℕ)) ReassembleError × Reassembler
    → (Reassembler → Reassembler × List (List ℕ))
    → Reassembler × List (List ℕ)
absorb (r, self) more = let rest = more self in (rest.0, note r rest.1)

unfoldable pub ingest_all : Reassembler → List Message → Reassembler × List (List ℕ)
ingest_all self [] = (self, [])
ingest_all self (msg ∷ msgs) = absorb (ingest self msg) (λ r. ingest_all r msgs)

pub record EchoGuard : Type 0 where
  pub last_remote_hash : Option (List ℕ)

abbrev pub no_echo : EchoGuard
no_echo = record { last_remote_hash = none }

-- The guard over a hash of texts: SHA-256, which is not part of the repository.
module _ (hash : List ℕ → List ℕ) where
  unfoldable pub remember_remote_write : EchoGuard → List ℕ → EchoGuard
  remember_remote_write self text = record { last_remote_hash = some (hash text) }

  unfoldable pub is_echo_of_remote : EchoGuard → List ℕ → Bool
  is_echo_of_remote self text = elim self.last_remote_hash [
    | some h ↦ bytes_eq h (hash text)
    | none ↦ false
  ]

unfoldable pub clear : EchoGuard → EchoGuard
clear self = no_echo
