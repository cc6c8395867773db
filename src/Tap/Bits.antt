-- ===== src/Tap/Bits.antt =====
-- The nine bits of the bitmap, for all bitmaps and all bits.
use kmwarp.Base.{
  bool_eq, bool_eq_sound, ℕ, ◌<◌, ◌≡◌, refl, Bool, true, false, not, ◌&&◌, ltb, ◌==◌, if◌then◌else◌,
  arith, every_below, every_below_at, ltb→lt,
}
use kmwarp.Tap.{is_held_bit, toggle_bit}

abbrev toggles : ℕ → ℕ → ℕ → Bool
toggles k j held =
    bool_eq (is_held_bit (toggle_bit held k) j)
      (if k == j then not (is_held_bit held j) else is_held_bit held j)
    && ltb (toggle_bit held k) 512

toggles_table :
    every_below (λ k. every_below (λ j. every_below (λ held. toggles k j held) 512) 9) 9 ≡ true
unfolding every_below is_held_bit toggle_bit
toggles_table = refl

and_left : (a b : Bool) → (a && b) ≡ true → a ≡ true
and_left a b h = ground arith

and_right : (a b : Bool) → (a && b) ≡ true → b ≡ true
and_right a b h = ground arith

toggles_all : (k j held : ℕ) → k < 9 → j < 9 → held < 512 → toggles k j held ≡ true
toggles_all k j held a b h =
    every_below_at (λ h. toggles k j h) 512 held
      (every_below_at (λ j. every_below (λ h. toggles k j h) 512) 9 j
        (every_below_at (λ k. every_below (λ j. every_below (λ h. toggles k j h) 512) 9) 9 k
          toggles_table a)
        b)
      h

pub is_held_bit-toggle_bit :
    (k j held : ℕ)
    → k < 9
    → j < 9
    → held < 512
    → is_held_bit (toggle_bit held k) j
      ≡ (if k == j then not (is_held_bit held j) else is_held_bit held j)
is_held_bit-toggle_bit k j held a b h =
    let t = toggles_all k j held a b h in bool_eq_sound _ _ (and_left _ _ t)

pub toggle_bit-lt : (k held : ℕ) → k < 9 → held < 512 → toggle_bit held k < 512
toggle_bit-lt k held a h =
    let t = toggles_all k 0 held a (omega arith) h in ltb→lt _ _ (and_right _ _ t)

none_held_table : every_below (λ k. not (is_held_bit 0 k)) 9 ≡ true
unfolding every_below is_held_bit
none_held_table = refl

pub is_held_bit_none : (k : ℕ) → k < 9 → is_held_bit 0 k ≡ false
is_held_bit_none k h =
    let unset = every_below_at (λ k. not (is_held_bit 0 k)) 9 k none_held_table h in ground arith
