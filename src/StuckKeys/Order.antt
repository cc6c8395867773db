-- ===== src/StuckKeys/Order.antt =====
-- The tracker is a set, and its keys stay in strictly ascending order.
use kmwarp.Base.{
  ℕ, ◌<◌, ◌≤◌, ◌≡◌, refl, Bool, true, false, List, [], ◌∷◌, ◌==◌, if◌then◌else◌, arith, All,
}
use kmwarp.Platform.{KeyState, up, down}
use kmwarp.StuckKeys.{
  HeldKeys, insert_key, remove_key, contains_key, insert, remove, is_held, observe,
}

abbrev pub IsAscending : List ℕ → Type 0
IsAscending [] = Unit {0}
IsAscending (k ∷ ks) = All (λ j. k < j) ks × IsAscending ks

abbrev pub IsValid : HeldKeys → Type 0
IsValid h = IsAscending h.keys

-- A bound carries over to a smaller one.
All-lt_trans : (i k : ℕ) (ks : List ℕ) → i < k → All (λ j. k < j) ks → All (λ j. i < j) ks
All-lt_trans i k [] h a = tt
All-lt_trans i k (j ∷ ks) h a = (omega arith, All-lt_trans i k ks h a.1)

All-insert_key :
    (i hid : ℕ) (ks : List ℕ) → i < hid → All (λ j. i < j) ks → All (λ j. i < j) (insert_key hid ks)
unfolding insert_key
All-insert_key i hid [] h a = (h, tt)
All-insert_key i hid (k ∷ ks) h a = ground (arith, All-insert_key i hid ks)

All-remove_key :
    (i hid : ℕ) (ks : List ℕ) → All (λ j. i < j) ks → All (λ j. i < j) (remove_key hid ks)
unfolding remove_key
All-remove_key i hid [] a = tt
All-remove_key i hid (k ∷ ks) a = ground (arith, All-remove_key i hid ks)

insert_key-IsAscending : (hid : ℕ) (ks : List ℕ) → IsAscending ks → IsAscending (insert_key hid ks)
unfolding insert_key
insert_key-IsAscending hid [] s = (tt, tt)
insert_key-IsAscending hid (k ∷ ks) s =
    ground (arith, insert_key-IsAscending hid ks, All-insert_key k hid ks, All-lt_trans hid k ks)

remove_key-IsAscending : (hid : ℕ) (ks : List ℕ) → IsAscending ks → IsAscending (remove_key hid ks)
unfolding remove_key
remove_key-IsAscending hid [] s = tt
remove_key-IsAscending hid (k ∷ ks) s =
    ground (arith, remove_key-IsAscending hid ks, All-remove_key k hid ks)

contains_key-insert_key :
    (hid j : ℕ) (ks : List ℕ)
    → contains_key j (insert_key hid ks) ≡ (if j == hid then true else contains_key j ks)
unfolding contains_key insert_key
contains_key-insert_key hid j [] = refl
contains_key-insert_key hid j (k ∷ ks) = ground (arith, contains_key-insert_key hid j ks)

not-contains_key : (j k : ℕ) (ks : List ℕ) → All (λ i. k < i) ks → j ≤ k → contains_key j ks ≡ false
unfolding contains_key
not-contains_key j k [] a h = refl
not-contains_key j k (i ∷ ks) a h = ground (arith, not-contains_key j k ks)

contains_key-remove_key :
    (hid j : ℕ) (ks : List ℕ)
    → IsAscending ks
    → contains_key j (remove_key hid ks) ≡ (if j == hid then false else contains_key j ks)
unfolding contains_key remove_key
contains_key-remove_key hid j [] s = ground arith
contains_key-remove_key hid j (k ∷ ks) s =
    ground (arith, contains_key-remove_key hid j ks, not-contains_key j k ks)

pub insert-IsValid : (h : HeldKeys) (hid : ℕ) → IsValid h → IsValid (insert h hid)
unfolding insert
insert-IsValid h hid v = insert_key-IsAscending hid h.keys v

pub remove-IsValid : (h : HeldKeys) (hid : ℕ) → IsValid h → IsValid (remove h hid)
unfolding remove
remove-IsValid h hid v = remove_key-IsAscending hid h.keys v

pub is_held-insert :
    (h : HeldKeys) (hid j : ℕ) → is_held (insert h hid) j ≡ (if j == hid then true else is_held h j)
unfolding insert is_held
is_held-insert h hid j = contains_key-insert_key hid j h.keys

pub is_held-remove :
    (h : HeldKeys) (hid j : ℕ)
    → IsValid h
    → is_held (remove h hid) j ≡ (if j == hid then false else is_held h j)
unfolding remove is_held
is_held-remove h hid j v = contains_key-remove_key hid j h.keys v

abbrev pub is_down : KeyState → Bool
is_down down = true
is_down up = false

pub observe-IsValid :
    (h : HeldKeys) (hid : ℕ) (s : KeyState) → IsValid h → IsValid (observe h hid s)
unfolding observe
observe-IsValid h hid down v = insert-IsValid h hid v
observe-IsValid h hid up v = remove-IsValid h hid v

pub is_held-observe :
    (h : HeldKeys) (hid : ℕ) (s : KeyState) (j : ℕ)
    → IsValid h
    → is_held (observe h hid s) j ≡ (if j == hid then is_down s else is_held h j)
unfolding observe
is_held-observe h hid down j v = is_held-insert h hid j
is_held-observe h hid up j v = is_held-remove h hid j v
