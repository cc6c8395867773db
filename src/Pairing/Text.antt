-- ===== src/Pairing/Text.antt =====
-- White space as Rust's `char::is_whitespace` and `str::trim` read it; a text is the list of its
-- characters.
use kmwarp.Base.{
  ℕ, ◌≡◌, refl, ap, sym, ◌∙◌, Bool, true, false, ◌&&◌, ◌||◌, List, [], ◌∷◌, ◌++◌, leb, ◌==◌,
  if◌then◌else◌, All, append-nil,
}

-- `char::is_whitespace`
abbrev pub is_whitespace : ℕ → Bool
is_whitespace c =
    (leb 9 c && leb c 13)
    || c == 32
    || c == 0x85
    || c == 0xa0
    || c == 0x1680
    || (leb 0x2000 c && leb c 0x200a)
    || c == 0x2028
    || c == 0x2029
    || c == 0x202f
    || c == 0x205f
    || c == 0x3000

unfoldable pub trim_start : List ℕ → List ℕ
trim_start [] = []
trim_start (c ∷ cs) = if is_whitespace c then trim_start cs else c ∷ cs

-- A character goes when it is white and so is all behind it.
abbrev pub cons_unless_white : ℕ → List ℕ → List ℕ
cons_unless_white c [] = if is_whitespace c then [] else c ∷ []
cons_unless_white c (x ∷ xs) = c ∷ x ∷ xs

unfoldable pub trim_end : List ℕ → List ℕ
trim_end [] = []
trim_end (c ∷ cs) = cons_unless_white c (trim_end cs)

-- `str::trim`
unfoldable pub trim : List ℕ → List ℕ
unfolding trim_start trim_end
trim s = trim_end (trim_start s)

abbrev pub IsWhite : ℕ → Type 0
IsWhite c = is_whitespace c ≡ true

abbrev pub IsVisible : ℕ → Type 0
IsVisible c = is_whitespace c ≡ false

pub trim_start-white : (ws s : List ℕ) → All IsWhite ws → trim_start (ws ++ s) ≡ trim_start s
unfolding trim_start
trim_start-white [] s a = refl
trim_start-white (w ∷ ws) s (h, a) = rw h (trim_start-white ws s a)

pub trim_end_white : (ws : List ℕ) → All IsWhite ws → trim_end ws ≡ []
unfolding trim_end
trim_end_white [] a = refl
trim_end_white (w ∷ ws) (h, a) = rw (trim_end_white ws a, h)

cons_unless_white_visible : (c : ℕ) (cs : List ℕ) → IsVisible c → cons_unless_white c cs ≡ c ∷ cs
cons_unless_white_visible c [] h = rw h
cons_unless_white_visible c (x ∷ xs) h = refl

pub trim_end-visible :
    (cs ws : List ℕ) → All IsVisible cs → All IsWhite ws → trim_end (cs ++ ws) ≡ cs
unfolding trim_end
trim_end-visible [] ws a b = trim_end_white ws b
trim_end-visible (c ∷ cs) ws (h, a) b =
    ap (cons_unless_white c) (trim_end-visible cs ws a b) ∙ cons_unless_white_visible c cs h

trim-head_visible :
    (cs after : List ℕ)
    → All IsVisible cs
    → All IsWhite after
    → trim_end (trim_start (cs ++ after)) ≡ cs
unfolding trim_start
trim-head_visible [] after v a =
    ap trim_end (ap trim_start (sym (append-nil after)) ∙ trim_start-white after [] a)
    ∙ trim_end_white [] tt
trim-head_visible (c ∷ cs) after (h, v) a =
    ap (λ b. trim_end (if b then trim_start (cs ++ after) else c ∷ (cs ++ after))) h
    ∙ trim_end-visible (c ∷ cs) after (h, v) a

-- White space round visible characters is what is trimmed.
pub trim_visible :
    (before cs after : List ℕ)
    → All IsWhite before
    → All IsVisible cs
    → All IsWhite after
    → trim (before ++ (cs ++ after)) ≡ cs
unfolding trim
trim_visible before cs after b v a =
    ap trim_end (trim_start-white before (cs ++ after) b) ∙ trim-head_visible cs after v a

cons_unless_white_before :
    (x c : ℕ) (xs cs : List ℕ) → cons_unless_white x (xs ++ (c ∷ cs)) ≡ x ∷ (xs ++ (c ∷ cs))
cons_unless_white_before x c [] cs = refl
cons_unless_white_before x c (y ∷ xs) cs = refl

-- White space behind visible characters is trimmed, and what stands before them is kept.
pub trim_end_behind :
    (xs : List ℕ) (c : ℕ) (cs ws : List ℕ)
    → All IsVisible (c ∷ cs)
    → All IsWhite ws
    → trim_end (xs ++ ((c ∷ cs) ++ ws)) ≡ xs ++ (c ∷ cs)
unfolding trim_end
trim_end_behind [] c cs ws v a = trim_end-visible (c ∷ cs) ws v a
trim_end_behind (x ∷ xs) c cs ws v a =
    ap (cons_unless_white x) (trim_end_behind xs c cs ws v a) ∙ cons_unless_white_before x c xs cs
