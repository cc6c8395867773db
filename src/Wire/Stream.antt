-- ===== src/Wire/Stream.antt =====
-- `decode_frame` on a buffer that holds any part of a stream of frames.
use kmwarp.Base.{
  ℕ, suc, ◌+◌, ◌≤◌, ◌<◌, ◌≡◌, refl, ap, List, [], ◌∷◌, ◌++◌, length, length-append, take, drop,
  take-append_le, drop-append_le, length-drop, Bool-cases, inl, inr, ltb, Result, ok, err, some,
  none, arith, sym, ◌∙◌, ltb→le, le→ltb, lt→ltb, ◌⊎◌,
}
use kmwarp.Wire.{Message}
use kmwarp.Wire.Encode.{le16}
use kmwarp.Wire.Decode.{decode_frame, decode_payload, from_le_bytes}
use kmwarp.Wire.Frame.{payload, frame, Fits}
use kmwarp.Wire.RoundTrip.{from_le_bytes-le16}

-- Two ways to cut one list in two: the longer front begins with the shorter.
pub append_split {ℓ} :
    {A : Type ℓ} (us xs ys vs : List A)
    → xs ++ ys ≡ us ++ vs
    → length us ≤ length xs
    → (k : List A) × (xs ≡ us ++ k) × (vs ≡ k ++ ys)
append_split [] xs ys vs e h = (xs, refl, sym e)
append_split (u ∷ us) [] ys vs e h = absurd (omega arith)
append_split (u ∷ us) (x ∷ xs) ys vs e h =
    let (k, p, q) = append_split us xs ys vs (cc) (omega arith) in (k, cc, q)

-- While the buffer holds a part of the frame of a message that fits, and less than the whole, there is
-- nothing to decode and the buffer stays.
pub decode_frame_incomplete :
    (m : Message) (buf tail more : List ℕ)
    → Fits m
    → buf ++ tail ≡ frame m ++ more
    → length buf < length (frame m)
    → decode_frame buf ≡ (ok none, buf)
unfolding decode_frame
decode_frame_incomplete m [] tail more fits e short = refl
decode_frame_incomplete m (t ∷ []) tail more fits e short = refl
decode_frame_incomplete m (t ∷ l0 ∷ []) tail more fits e short = refl
decode_frame_incomplete m (t ∷ l0 ∷ l1 ∷ rest) tail more fits e short =
    let same : from_le_bytes (l0 ∷ l1 ∷ []) ≡ from_le_bytes (le16 (length (payload m))) = cc e in
    let len = from_le_bytes-le16 (length (payload m)) (omega arith) in
    rw (
      lt→ltb (length (t ∷ l0 ∷ l1 ∷ rest)) (3 + from_le_bytes (l0 ∷ l1 ∷ []))
        (omega (arith, same, len)))

Result-cases {ℓ κ} :
    {A : Type ℓ} {E : Type κ} (r : Result A E) → ((a : A) × (r ≡ ok a)) ⊎ ((e : E) × (r ≡ err e))
Result-cases (ok a) = inl (a, refl)
Result-cases (err e) = inr (e, refl)

drop-header :
    (t l0 l1 : ℕ) (bs : List ℕ)
    → let n = from_le_bytes (l0 ∷ l1 ∷ []) in drop (3 + n) (t ∷ l0 ∷ l1 ∷ bs) ≡ drop n bs
drop-header t l0 l1 bs =
    let n = from_le_bytes (l0 ∷ l1 ∷ []) in let e : 3 + n ≡ suc (suc (suc n)) = omega arith in rw e

module _ (t l0 l1 : ℕ) (bs : List ℕ) (m : Message) where
  -- All of the payload is there, and it decodes.
  decode_frame_ready :
      let n = from_le_bytes (l0 ∷ l1 ∷ []) in
      n ≤ length bs
      → decode_payload t (take n bs) ≡ ok m
      → decode_frame (t ∷ l0 ∷ l1 ∷ bs) ≡ (ok (some m), drop n bs)
  unfolding decode_frame
  decode_frame_ready h e =
      let n = from_le_bytes (l0 ∷ l1 ∷ []) in
      rw (le→ltb (length (t ∷ l0 ∷ l1 ∷ bs)) (3 + n) (omega arith), e)
        (ap (λ left. (ok (some m), left)) (drop-header t l0 l1 bs))

  -- Nothing else gives a message.
  decode_frame-eq-some :
      (rest : List ℕ)
      → decode_frame (t ∷ l0 ∷ l1 ∷ bs) ≡ (ok (some m), rest)
      → let n = from_le_bytes (l0 ∷ l1 ∷ []) in
        (n ≤ length bs) × (decode_payload t (take n bs) ≡ ok m) × (rest ≡ drop n bs)
  unfolding decode_frame
  decode_frame-eq-some rest h =
      elim (Bool-cases (ltb (length (t ∷ l0 ∷ l1 ∷ bs)) (3 + from_le_bytes (l0 ∷ l1 ∷ [])))) [
        | inl short ↦ cc (rw short at h)
        | inr long ↦
            elim (Result-cases (decode_payload t (take (from_le_bytes (l0 ∷ l1 ∷ [])) bs))) [
              | inl (m', e) ↦
                  let h' = rw (long, e) at h in
                  (omega (arith, ltb→le _ _ long), e ∙ cc h', cc (h', drop-header t l0 l1 bs))
              | inr (x, e) ↦ cc (rw (long, e) at h)
            ]
      ]

-- A decoded message is about the bytes of one frame: it is the same when more bytes follow.
decode_frame-append :
    (buf more : List ℕ) (m : Message) (rest : List ℕ)
    → decode_frame buf ≡ (ok (some m), rest)
    → decode_frame (buf ++ more) ≡ (ok (some m), rest ++ more)
decode_frame-append [] more m rest h = unfold decode_frame in cc h
decode_frame-append (t ∷ []) more m rest h = unfold decode_frame in cc h
decode_frame-append (t ∷ l0 ∷ []) more m rest h = unfold decode_frame in cc h
decode_frame-append (t ∷ l0 ∷ l1 ∷ bs) more m rest h =
    let n = from_le_bytes (l0 ∷ l1 ∷ []) in
    let (enough, body, left) = decode_frame-eq-some t l0 l1 bs m rest h in
    decode_frame_ready t l0 l1 (bs ++ more) m (omega (arith, length-append bs more))
      (rw (take-append_le n bs more enough) body)
    ∙ rw (drop-append_le n bs more enough, left)

-- Each decoded message takes its header at least, so a loop over the buffer ends.
decode_frame_shrinks :
    (buf : List ℕ) (m : Message) (rest : List ℕ)
    → decode_frame buf ≡ (ok (some m), rest)
    → length rest + 3 ≤ length buf
decode_frame_shrinks [] m rest h = unfold decode_frame in cc h
decode_frame_shrinks (t ∷ []) m rest h = unfold decode_frame in cc h
decode_frame_shrinks (t ∷ l0 ∷ []) m rest h = unfold decode_frame in cc h
decode_frame_shrinks (t ∷ l0 ∷ l1 ∷ bs) m rest h =
    let (enough, body, left) = decode_frame-eq-some t l0 l1 bs m rest h in
    omega (arith, ap length left, length-drop (from_le_bytes (l0 ∷ l1 ∷ [])) bs)
