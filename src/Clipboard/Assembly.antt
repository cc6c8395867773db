-- ===== src/Clipboard/Assembly.antt =====
-- What `Chunker::split` cuts, the `Reassembler` puts together.
use kmwarp.Base.{
  ℕ, zero, suc, ◌+◌, ◌-◌, ◌≤◌, ◌<◌, ◌≡◌, refl, ap, ◌∙◌, true, List, [], ◌∷◌, ◌++◌, none, some, ok,
  leb, length, drop, All, arith, is_utf8, append_assoc, append-nil, Bool-cases, leb→le, leb→lt, inl,
  inr, take-append-drop, length-drop, length-take,
}
use kmwarp.Wire.{Message}
use kmwarp.Clipboard.{
  chunk_size, chunks_on, chunks, number_from, split, Reassembler, new, ingest, ingest_all, first,
  last, absorb,
}

-- The chunks in order are the payload.
pub flatten : List (List ℕ) → List ℕ
flatten [] = []
flatten (c ∷ cs) = c ++ flatten cs

flatten-chunks_on :
    (fuel size : ℕ) (bytes : List ℕ)
    → 0 < size
    → length bytes ≤ fuel
    → flatten (chunks_on fuel size bytes) ≡ bytes
unfolding flatten chunks_on
flatten-chunks_on zero size [] h f = refl
flatten-chunks_on zero size (b ∷ bs) h f = absurd (omega arith)
flatten-chunks_on (suc fuel) size [] h f = refl
flatten-chunks_on (suc fuel) size (b ∷ bs) h f =
    rw
      (flatten-chunks_on fuel size (drop size (b ∷ bs)) h
        (omega (arith, length-drop size (b ∷ bs))))
      (take-append-drop size (b ∷ bs))

abbrev IsChunk : List ℕ → Type 0
IsChunk c = (0 < length c) × (length c ≤ chunk_size)

chunks_on-IsChunk : (fuel : ℕ) (bytes : List ℕ) → All IsChunk (chunks_on fuel chunk_size bytes)
unfolding chunks_on
chunks_on-IsChunk zero bytes = tt
chunks_on-IsChunk (suc fuel) [] = tt
chunks_on-IsChunk (suc fuel) (b ∷ bs) =
    let size = length-take chunk_size (b ∷ bs) in
    ((omega (arith, size), omega (arith, size)), chunks_on-IsChunk fuel (drop chunk_size (b ∷ bs)))

-- A middle frame joins the buffer; the last one completes it.
abbrev busy : List ℕ → Reassembler
busy b = record { buffer = b; in_progress = true }

ingest-middle :
    (b c : List ℕ) → ingest (busy b) (Message.clipboard_text 0 c) ≡ (ok none, busy (b ++ c))
unfolding ingest
ingest-middle b c = refl

ingest-first :
    (r : Reassembler) (c : List ℕ) → ingest r (Message.clipboard_text first c) ≡ (ok none, busy c)
unfolding ingest
ingest-first r c = refl

ingest-last :
    (b c : List ℕ)
    → is_utf8 (b ++ c) ≡ true
    → ingest (busy b) (Message.clipboard_text last c) ≡ (ok (some (b ++ c)), new)
unfolding ingest
ingest-last b c u = rw u

ingest-single :
    (r : Reassembler) (c : List ℕ)
    → is_utf8 c ≡ true
    → ingest r (Message.clipboard_text 3 c) ≡ (ok (some c), new)
unfolding ingest
ingest-single r c u = rw u

module _ (i last_idx : ℕ) (c : List ℕ) (cs : List (List ℕ)) (after : 0 < i) where
  number_from-middle :
      i < last_idx
      → number_from i last_idx (c ∷ cs)
        ≡ Message.clipboard_text 0 c ∷ number_from (i + 1) last_idx cs
  unfolding number_from
  number_from-middle h = ground arith

  number_from-last :
      i ≡ last_idx
      → number_from i last_idx (c ∷ cs)
        ≡ Message.clipboard_text last c ∷ number_from (i + 1) last_idx cs
  unfolding number_from
  number_from-last h = ground arith

append-flatten : (b c : List ℕ) (cs : List (List ℕ)) → b ++ c ++ flatten cs ≡ b ++ flatten (c ∷ cs)
unfolding flatten
append-flatten b c cs = append_assoc b c (flatten cs)

-- A frame that completes nothing leaves the rest to the frames that follow.
ingest_all-quiet :
    (r r' : Reassembler) (m : Message) (ms : List Message)
    → ingest r m ≡ (ok none, r')
    → ingest_all r (m ∷ ms) ≡ ingest_all r' ms
unfolding ingest_all
ingest_all-quiet r r' m ms h = rw (h, absorb)

-- From the second chunk on: the rest of the frames completes the payload.
number_from-assembled :
    (cs : List (List ℕ)) (c b : List ℕ) (i last_idx : ℕ)
    → 0 < i
    → last_idx ≡ i + length cs
    → is_utf8 (b ++ flatten (c ∷ cs)) ≡ true
    → ingest_all (busy b) (number_from i last_idx (c ∷ cs)) ≡ (new, (b ++ flatten (c ∷ cs)) ∷ [])
number_from-assembled [] c b i last_idx after e u =
    rw (number_from-last i last_idx c [] after (omega arith)) (
      unfold ingest_all number_from flatten in
      rw (append-nil, ingest-last b c (unfold flatten in rw append-nil at u), absorb))
number_from-assembled (d ∷ cs) c b i last_idx after e u =
    let whole = append-flatten b c (d ∷ cs) in
    rw (number_from-middle i last_idx c (d ∷ cs) after (omega arith)) (
      ingest_all-quiet (busy b) (busy (b ++ c)) _ _ (ingest-middle b c)
      ∙ number_from-assembled cs d (b ++ c) (i + 1) last_idx (omega arith) (omega arith)
          (ap is_utf8 whole ∙ u)
      ∙ ap (λ text. (new, text ∷ [])) whole)

-- The frames of a payload that does not fit one frame.
number_from-first :
    (c : List ℕ) (cs : List (List ℕ)) (last_idx : ℕ)
    → 0 < last_idx
    → number_from 0 last_idx (c ∷ cs) ≡ Message.clipboard_text first c ∷ number_from 1 last_idx cs
unfolding number_from
number_from-first c cs last_idx h = ground arith

number_from-split :
    (parts : List (List ℕ)) (r : Reassembler)
    → 1 < length parts
    → is_utf8 (flatten parts) ≡ true
    → ingest_all r (number_from 0 (length parts - 1) parts) ≡ (new, flatten parts ∷ [])
number_from-split [] r h u = absurd (omega arith)
number_from-split (c ∷ []) r h u = absurd (omega arith)
number_from-split (c ∷ d ∷ cs) r h u =
    rw (number_from-first c (d ∷ cs) (length (c ∷ d ∷ cs) - 1) (omega arith)) (
      ingest_all-quiet r (busy c) _ _ (ingest-first r c)
      ∙ number_from-assembled cs d c 1 _ (omega arith) (omega arith)
          (ap is_utf8 (append-flatten [] c (d ∷ cs)) ∙ u)
      ∙ ap (λ text. (new, text ∷ [])) (append-flatten [] c (d ∷ cs)))

-- More than one frame's bytes are more than one chunk.
chunks-several :
    (parts : List (List ℕ))
    → All IsChunk parts
    → chunk_size < length (flatten parts)
    → 1 < length parts
unfolding flatten
chunks-several [] a h = absurd (omega arith)
chunks-several (c ∷ []) ((_, small), _) h = absurd (omega (arith, ap length (append-nil c), small))
chunks-several (c ∷ d ∷ cs) a h = omega arith

split_small :
    (text : List ℕ) → length text ≤ chunk_size → split text ≡ Message.clipboard_text 3 text ∷ []
unfolding split
split_small text h = ground arith

split_large :
    (text : List ℕ)
    → chunk_size < length text
    → split text ≡ number_from 0 (length (chunks chunk_size text) - 1) (chunks chunk_size text)
unfolding split
split_large text h = ground arith

flatten-chunks : (text : List ℕ) → flatten (chunks chunk_size text) ≡ text
unfolding chunks
flatten-chunks text = flatten-chunks_on (length text) chunk_size text (omega arith) (omega arith)

ingest_all-small :
    (r : Reassembler) (text : List ℕ)
    → is_utf8 text ≡ true
    → ingest_all r (Message.clipboard_text 3 text ∷ []) ≡ (new, text ∷ [])
unfolding ingest_all
ingest_all-small r text u = rw (ingest-single r text u, absorb)

ingest_all-large :
    (r : Reassembler) (text : List ℕ)
    → is_utf8 text ≡ true
    → chunk_size < length text
    → ingest_all r (split text) ≡ (new, text ∷ [])
unfolding chunks
ingest_all-large r text u h =
    let whole = flatten-chunks text in
    let several =
      chunks-several (chunks chunk_size text) (chunks_on-IsChunk (length text) text)
        (omega (arith, ap length whole)) in
    ap (ingest_all r) (split_large text h)
    ∙ number_from-split (chunks chunk_size text) r several (ap is_utf8 whole ∙ u)
    ∙ ap (λ text'. (new, text' ∷ [])) whole

-- A reassembler in any state, fed the frames of a UTF-8 text of any length, ends idle and has completed
-- that text and nothing else.
pub ingest_all-split :
    (r : Reassembler) (text : List ℕ)
    → is_utf8 text ≡ true
    → ingest_all r (split text) ≡ (new, text ∷ [])
ingest_all-split r text u = elim (Bool-cases (leb (length text) chunk_size)) [
  | inl fits ↦ ap (ingest_all r) (split_small text (leb→le _ _ fits)) ∙ ingest_all-small r text u
  | inr big ↦ ingest_all-large r text u (omega (arith, leb→lt (length text) chunk_size big))
]
