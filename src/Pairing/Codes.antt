-- ===== src/Pairing/Codes.antt =====
-- crates/client/src/net/pairing.rs: what `read_code_from_stdin` makes of the line that the operator
-- types, and the codes that the two sides of a pairing agree on.
use kmwarp.Base.{
  ℕ, ◌+◌, ◌%◌, ◌≡◌, refl, sym, ap, ◌∙◌, true, false, ◌&&◌, List, [], ◌∷◌, ◌++◌, some, ok, ◌==◌,
  if◌then◌else◌, All, arith, length, append-nil,
}
use kmwarp.Pairing.Text.{
  is_whitespace, trim, trim_start, trim_end, IsVisible, IsWhite, trim_visible, trim_start-white,
  trim_end_behind,
}
use kmwarp.Pairing.{from_le_bytes, six_digits, generate_code, check_code, all, is_ascii_digit}

-- `trim_start_matches("code:")`: the prefix goes as often as it stands there. The first argument is what
-- is still to be matched of the prefix.
unfoldable pub strip_code : List ℕ → List ℕ
strip_code (a ∷ b ∷ c ∷ d ∷ e ∷ rest) =
    let more = strip_code rest in
    if a == b'c' && b == b'o' && c == b'd' && d == b'e' && e == b':'
    then more
    else a ∷ b ∷ c ∷ d ∷ e ∷ rest
strip_code s = s

unfoldable pub without_whitespace : List ℕ → List ℕ
without_whitespace [] = []
without_whitespace (c ∷ cs) =
    let rest = without_whitespace cs in if is_whitespace c then rest else c ∷ rest

-- What the read line becomes.
unfoldable pub code_of_line : List ℕ → List ℕ
code_of_line line = without_whitespace (trim (strip_code (trim line)))

digit-is_ascii_digit : (n : ℕ) → is_ascii_digit (b'0' + n % 10) ≡ true
digit-is_ascii_digit n = ground arith

six_digits-all : (n : ℕ) → all is_ascii_digit (six_digits n) ≡ true
six_digits-all n = simp (digit-is_ascii_digit)

-- Every code that the server generates from a working random source passes the check of both sides.
pub check_code-generate_code :
    (buf : List ℕ) {code : List ℕ} → generate_code (some buf) ≡ ok code → check_code code ≡ ok tt
unfolding generate_code check_code
check_code-generate_code buf {code} h =
    let same : six_digits (from_le_bytes buf % 1000000) ≡ code = cc in
    rw (← same) (rw (six_digits-all (from_le_bytes buf % 1000000)))

-- The shape of a code: six visible characters, the first of them not the first of "code:".
digit-IsVisible : (c : ℕ) → is_ascii_digit c ≡ true → IsVisible c
digit-IsVisible c h = ground arith

all-IsVisible : (cs : List ℕ) → all is_ascii_digit cs ≡ true → All IsVisible cs
all-IsVisible [] h = tt
all-IsVisible (c ∷ cs) h = (digit-IsVisible c (ground arith), all-IsVisible cs (ground arith))

check_code-digits :
    (code : List ℕ) → check_code code ≡ ok tt → (length code ≡ 6) × (all is_ascii_digit code ≡ true)
unfolding check_code
check_code-digits code h = ground arith

without_whitespace_visible : (cs : List ℕ) → All IsVisible cs → without_whitespace cs ≡ cs
unfolding without_whitespace
without_whitespace_visible [] v = refl
without_whitespace_visible (c ∷ cs) (h, v) = rw h (rw (without_whitespace_visible cs v))

strip_code_other : (c : ℕ) (cs : List ℕ) → (c == b'c') ≡ false → strip_code (c ∷ cs) ≡ c ∷ cs
unfolding strip_code
strip_code_other c [] h = refl
strip_code_other c (c1 ∷ []) h = refl
strip_code_other c (c1 ∷ c2 ∷ []) h = refl
strip_code_other c (c1 ∷ c2 ∷ c3 ∷ []) h = refl
strip_code_other c (c1 ∷ c2 ∷ c3 ∷ c4 ∷ cs) h =
    ap
      (λ b.
        if b && c1 == b'o' && c2 == b'd' && c3 == b'e' && c4 == b':'
        then strip_code cs
        else c ∷ c1 ∷ c2 ∷ c3 ∷ c4 ∷ cs)
      h

strip_code_white :
    (gap cs : List ℕ) (c : ℕ)
    → All IsWhite gap
    → is_ascii_digit c ≡ true
    → strip_code (gap ++ (c ∷ cs)) ≡ gap ++ (c ∷ cs)
strip_code_white [] cs c a h = strip_code_other c cs (ground arith)
strip_code_white (w ∷ gap) cs c (white, a) h = strip_code_other w (gap ++ (c ∷ cs)) (ground arith)

abbrev pub code_prefix : List ℕ
code_prefix = b'c' ∷ b'o' ∷ b'd' ∷ b'e' ∷ b':' ∷ []

strip_code_prefix : (s : List ℕ) → strip_code (code_prefix ++ s) ≡ strip_code s
unfolding strip_code
strip_code_prefix s = refl

trim_prefixed :
    (before gap after : List ℕ) (c : ℕ) (cs : List ℕ)
    → All IsWhite before
    → All IsVisible (c ∷ cs)
    → All IsWhite after
    → trim (before ++ (code_prefix ++ (gap ++ ((c ∷ cs) ++ after))))
      ≡ code_prefix ++ (gap ++ (c ∷ cs))
unfolding trim trim_start
trim_prefixed before gap after c cs b v a =
    ap trim_end (trim_start-white before (code_prefix ++ (gap ++ ((c ∷ cs) ++ after))) b)
    ∙ trim_end_behind (code_prefix ++ gap) c cs after v a

-- The four steps on a line, from what is left after each.
code_of_line-steps :
    (line : List ℕ) {trimmed stripped code : List ℕ}
    → trim line ≡ trimmed
    → strip_code trimmed ≡ stripped
    → trim stripped ≡ code
    → without_whitespace code ≡ code
    → code_of_line line ≡ code
unfolding code_of_line
code_of_line-steps line p q r t =
    ap (λ s. without_whitespace (trim (strip_code s))) p
    ∙ ap (λ s. without_whitespace (trim s)) q
    ∙ ap without_whitespace r
    ∙ t

-- A typed code, with or without the prefix "code:" and with any white space before, between and behind,
-- is read as that code.
pub code_of_line-code :
    (before gap after code : List ℕ)
    → All IsWhite before
    → All IsWhite gap
    → All IsWhite after
    → check_code code ≡ ok tt
    → (code_of_line (before ++ (code ++ after)) ≡ code)
      × (code_of_line (before ++ (code_prefix ++ (gap ++ (code ++ after)))) ≡ code)
code_of_line-code before gap after [] b g a h =
    absurd (let long = (check_code-digits [] h).0 in omega arith)
code_of_line-code before gap after (c ∷ cs) b g a h =
    let digits = (check_code-digits (c ∷ cs) h).1 in
    let first : is_ascii_digit c ≡ true = ground arith in
    let v = all-IsVisible (c ∷ cs) digits in
    let stays = without_whitespace_visible (c ∷ cs) v in
    let alone = λ (ws : List ℕ) (w : All IsWhite ws).
      ap (λ s. trim (ws ++ s)) (sym (append-nil (c ∷ cs))) ∙ trim_visible ws (c ∷ cs) [] w v tt in
    (
      code_of_line-steps _ (trim_visible before (c ∷ cs) after b v a)
          (strip_code_white [] cs c tt first) (alone [] tt) stays,
      code_of_line-steps _ (trim_prefixed before gap after c cs b v a)
          (strip_code_prefix (gap ++ (c ∷ cs)) ∙ strip_code_white gap cs c g first) (alone gap g)
          stays,
    )
