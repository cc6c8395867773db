-- ===== src/StuckKeys.antt =====
-- crates/core/src/stuck_keys.rs: the keys that are down on the destination side. A `BTreeSet<u16>` is
-- the list of its keys in ascending order.
pub mod Order
pub mod History
use kmwarp.Base.{ℕ, Bool, true, false, ◌||◌, List, [], ◌∷◌, ltb, ◌==◌, if◌then◌else◌, length}
use kmwarp.Platform.{KeyState, up, down}

pub record HeldKeys : Type 0 where
  pub keys : List ℕ

abbrev pub new : HeldKeys
new = record { keys = [] }

-- `BTreeSet::insert`
unfoldable pub insert_key : ℕ → List ℕ → List ℕ
insert_key hid [] = hid ∷ []
insert_key hid (k ∷ ks) =
    if ltb hid k then hid ∷ k ∷ ks else if hid == k then k ∷ ks else k ∷ insert_key hid ks

-- `BTreeSet::remove`
unfoldable pub remove_key : ℕ → List ℕ → List ℕ
remove_key hid [] = []
remove_key hid (k ∷ ks) =
    if ltb hid k then k ∷ ks else if hid == k then ks else k ∷ remove_key hid ks

-- `BTreeSet::contains`
unfoldable pub contains_key : ℕ → List ℕ → Bool
contains_key hid [] = false
contains_key hid (k ∷ ks) = if hid == k then true else contains_key hid ks

unfoldable pub insert : HeldKeys → ℕ → HeldKeys
insert self hid = record { keys = insert_key hid self.keys }

unfoldable pub remove : HeldKeys → ℕ → HeldKeys
remove self hid = record { keys = remove_key hid self.keys }

unfoldable pub is_held : HeldKeys → ℕ → Bool
is_held self hid = contains_key hid self.keys

unfoldable pub len : HeldKeys → ℕ
len self = length self.keys

unfoldable pub is_empty : HeldKeys → Bool
is_empty self = elim self.keys [ [] ↦ true | _ ∷ _ ↦ false ]

unfoldable pub observe : HeldKeys → ℕ → KeyState → HeldKeys
observe self hid down = insert self hid
observe self hid up = remove self hid

-- The keys in ascending order, and the emptied tracker.
unfoldable pub drain : HeldKeys → List ℕ × HeldKeys
drain self = (self.keys, new)
