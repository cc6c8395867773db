-- ===== src/Hid/Bijection.antt =====
-- The tables as partial bijections, and the whole path of a key from the Mac to Windows.
use kmwarp.Base.{
  ℕ, ◌+◌, ◌/◌, ◌%◌, ◌≡◌, ◌↔◌, refl, sym, ap, ◌∙◌, Bool, true, false, ◌&&◌, ◌||◌, Option,
  Option-cases, none, some, not, List, [], ◌∷◌, ◌==◌, if◌then◌else◌, arith, Bool-cases, ◌⊎◌, inl,
  inr,
}
use mathlib.Core.Option.{some-injective}
use kmwarp.Hid.{
  find_value, find_key, WinScancode, win_scancode, is_extended_scancode, scancode_low_byte,
}
use kmwarp.Hid.Tables.{macos_vk_to_hid, hid_to_scancode_table}
use kmwarp.Hid.Lookup.{
  macos_to_hid, hid_to_macos, hid_to_scancode, hid_to_windows_scancode, map_scancode,
}

abbrev is_none : Option ℕ → Bool
is_none none = true
is_none (some _) = false

-- No key and no value stands twice.
abbrev is_bijective : List (ℕ × ℕ) → Bool
is_bijective [] = true
is_bijective ((k, v) ∷ rest) =
    is_none (find_value rest k) && (is_none (find_key rest v) && is_bijective rest)

IsBijective : List (ℕ × ℕ) → Type 0
IsBijective [] = Unit
IsBijective ((k, v) ∷ rest) =
    (find_value rest k ≡ none) × (find_key rest v ≡ none) × IsBijective rest

is_none_sound : (o : Option ℕ) → is_none o ≡ true → o ≡ none
is_none_sound none h = refl
is_none_sound (some a) h = ground arith

and-parts : (a b : Bool) → (a && b) ≡ true → (a ≡ true) × (b ≡ true)
and-parts a b h = ground arith

is_bijective_sound : (t : List (ℕ × ℕ)) → is_bijective t ≡ true → IsBijective t
unfolding IsBijective
is_bijective_sound [] h = tt
is_bijective_sound ((k, v) ∷ rest) h =
    let (a, b) = and-parts (is_none (find_value rest k)) _ h in
    let (c, d) = and-parts (is_none (find_key rest v)) _ b in
    (is_none_sound _ a, is_none_sound _ c, is_bijective_sound rest d)

find_key-find_value :
    (t : List (ℕ × ℕ)) (k v : ℕ) → IsBijective t → find_value t k ≡ some v → find_key t v ≡ some k
unfolding find_value find_key IsBijective
find_key-find_value [] k v b h = ground arith
find_key-find_value ((a, b) ∷ rest) k v (_, new_value, uniq) h =
    let ih = find_key-find_value rest k v uniq in ground arith

find_value-find_key :
    (t : List (ℕ × ℕ)) (k v : ℕ) → IsBijective t → find_key t v ≡ some k → find_value t k ≡ some v
unfolding find_value find_key IsBijective
find_value-find_key [] k v b h = ground arith
find_value-find_key ((a, b) ∷ rest) k v (new_key, _, uniq) h =
    let ih = find_value-find_key rest k v uniq in ground arith

macos-IsBijective : IsBijective macos_vk_to_hid
unfolding find_value find_key
macos-IsBijective = is_bijective_sound macos_vk_to_hid refl

scancode-IsBijective : IsBijective hid_to_scancode_table
unfolding find_value find_key
scancode-IsBijective = is_bijective_sound hid_to_scancode_table refl

-- The lookups of the macOS table in both directions are inverse on all keycodes and usages.
hid_to_macos-macos_to_hid :
    (vk hid : ℕ) → (macos_to_hid vk ≡ some hid) ↔ (hid_to_macos hid ≡ some vk)
unfolding macos_to_hid hid_to_macos
hid_to_macos-macos_to_hid vk hid = (
  find_key-find_value macos_vk_to_hid vk hid macos-IsBijective,
  find_value-find_key macos_vk_to_hid vk hid macos-IsBijective,
)

-- A test that all rows of a table pass, passes for what a lookup finds.
abbrev all_values : (ℕ → Bool) → List (ℕ × ℕ) → Bool
all_values test [] = true
all_values test ((_, v) ∷ rest) = test v && all_values test rest

all_values-find_value :
    (test : ℕ → Bool) (t : List (ℕ × ℕ)) (k v : ℕ)
    → all_values test t ≡ true
    → find_value t k ≡ some v
    → test v ≡ true
unfolding find_value
all_values-find_value test [] k v a h = ground arith
all_values-find_value test ((a, b) ∷ rest) k v all h =
    let (here, later) = and-parts (test b) _ all in
    let ih = all_values-find_value test rest k v later in
    elim (Bool-cases (a == k)) [
      | inl hit ↦ let same : b ≡ v = ground arith in rw same at here
      | inr miss ↦ ih (ground arith)
    ]

-- The high byte of a packed scancode is 0 or 0xE0.
packed_two_ways :
    (v : ℕ) → ((v / 256 == 224) || (v / 256 == 0)) ≡ true → (v / 256 ≡ 224) ⊎ (v / 256 ≡ 0)
packed_two_ways v h = ground arith

win_scancode_inj :
    (v w : ℕ)
    → ((v / 256 == 224) || (v / 256 == 0)) ≡ true
    → ((w / 256 == 224) || (w / 256 == 0)) ≡ true
    → win_scancode v ≡ win_scancode w
    → v ≡ w
win_scancode_inj v w hv hw h =
    let low : v % 256 ≡ w % 256 = ap (λ s. s.code) h in
    let high : (v / 256 == 224) ≡ (w / 256 == 224) = ap (λ s. s.extended) h in
    let parts : v / 256 ≡ w / 256 = ground arith in omega arith

is_packed : (hid v : ℕ) → hid_to_scancode hid ≡ some v → ((v / 256 == 224) || (v / 256 == 0)) ≡ true
unfolding hid_to_scancode
is_packed hid v h =
    all_values-find_value (λ v. (v / 256 == 224) || (v / 256 == 0)) hid_to_scancode_table hid v refl
      h

-- Where a usage has a packed scancode, the split form is its low byte and its flag of an extended key,
-- and the two make up the packed form.
hid_to_windows_scancode-hid_to_scancode :
    (hid packed : ℕ)
    → hid_to_scancode hid ≡ some packed
    → (hid_to_windows_scancode hid
        ≡ some (record { code = scancode_low_byte packed; extended = is_extended_scancode packed }))
      × (packed ≡ (if is_extended_scancode packed then 57344 else 0) + scancode_low_byte packed)
unfolding hid_to_windows_scancode hid_to_scancode scancode_low_byte is_extended_scancode
hid_to_windows_scancode-hid_to_scancode hid packed h =
    let ways = is_packed hid packed (unfold hid_to_scancode in h) in
    (rw (h, map_scancode), ground arith)

unpack :
    (hid : ℕ) (s : WinScancode)
    → hid_to_windows_scancode hid ≡ some s
    → (packed : ℕ) × (hid_to_scancode hid ≡ some packed) × (win_scancode packed ≡ s)
unfolding hid_to_windows_scancode hid_to_scancode
unpack hid s h = elim (Option-cases (find_value hid_to_scancode_table hid)) [
  | inl missing ↦ absurd (let bad = rw missing at h in ground arith)
  | inr (packed, found) ↦ (packed, found, some-injective _ _ (rw (found, map_scancode) at h))
]

packed_key :
    (hid packed : ℕ)
    → hid_to_scancode hid ≡ some packed
    → find_key hid_to_scancode_table packed ≡ some hid
unfolding hid_to_scancode
packed_key hid packed h =
    find_key-find_value hid_to_scancode_table hid packed scancode-IsBijective h

-- Two usages with one Windows scancode are one usage.
pub hid_to_windows_scancode_injective :
    (hid hid' : ℕ) (s : WinScancode)
    → hid_to_windows_scancode hid ≡ some s
    → hid_to_windows_scancode hid' ≡ some s
    → hid ≡ hid'
hid_to_windows_scancode_injective hid hid' s w w' =
    let (packed, f, e) = unpack hid s w in
    let (packed', f', e') = unpack hid' s w' in
    let same =
      win_scancode_inj packed packed' (is_packed hid packed f) (is_packed hid' packed' f')
        (e ∙ sym e') in
    let key = packed_key hid packed f in
    let key' = packed_key hid' packed' f' in
    some-injective _ _ (sym key ∙ ap (find_key hid_to_scancode_table) same ∙ key')

-- Two keycodes of the Mac whose usages have one Windows scancode are one keycode.
hid_to_windows_scancode-macos_to_hid_injective :
    (vk vk' hid hid' : ℕ) (s : WinScancode)
    → macos_to_hid vk ≡ some hid
    → macos_to_hid vk' ≡ some hid'
    → hid_to_windows_scancode hid ≡ some s
    → hid_to_windows_scancode hid' ≡ some s
    → vk ≡ vk'
unfolding hid_to_macos
hid_to_windows_scancode-macos_to_hid_injective vk vk' hid hid' s m m' w w' =
    let usage = hid_to_windows_scancode_injective hid hid' s w w' in
    let mac = (hid_to_macos-macos_to_hid vk hid).0 m in
    let mac' = (hid_to_macos-macos_to_hid vk' hid').0 m' in ground arith

-- Each usage of the Mac's table stands in the scancode table.
abbrev has_scancode : ℕ → Bool
has_scancode hid = not (is_none (find_value hid_to_scancode_table hid))

macos_covered : all_values has_scancode macos_vk_to_hid ≡ true
unfolding find_value
macos_covered = refl

-- Each usage that the macOS table yields has a Windows scancode.
hid_to_windows_scancode-macos_to_hid :
    (vk hid : ℕ)
    → macos_to_hid vk ≡ some hid
    → (s : WinScancode) × (hid_to_windows_scancode hid ≡ some s)
unfolding macos_to_hid hid_to_windows_scancode
hid_to_windows_scancode-macos_to_hid vk hid m =
    let there = all_values-find_value has_scancode macos_vk_to_hid vk hid macos_covered m in
    elim (Option-cases (find_value hid_to_scancode_table hid)) [
      | inl missing ↦ absurd (let bad = rw missing at there in ground arith)
      | inr (packed, found) ↦ (win_scancode packed, rw (found, map_scancode))
    ]
