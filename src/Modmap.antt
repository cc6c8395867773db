-- ===== src/Modmap.antt =====
-- crates/core/src/modmap.rs: the translation of modifier keys and of the modifier mask.
pub mod Usage
pub mod Chords
use kmwarp.Base.{ℕ, Option, none, some, ◌==◌, if◌then◌else◌}
use kmwarp.Platform.ModMask
use kmwarp.Platform.ModMask.{ModMask, contains}
use Usage

-- What a modifier becomes; `unchanged` is the source's `Identity`.
pub data ModTarget : Type 0 where
  ctrl alt shift meta identity : ModTarget

pub record ModRemap : Type 0 where
  pub cmd : ModTarget
  pub option : ModTarget

-- `ModRemap::default()`
abbrev pub default : ModRemap
default = record { cmd = ModTarget.ctrl; option = ModTarget.alt }

-- `ModRemap::identity()`
abbrev pub verbatim : ModRemap
verbatim = record { cmd = ModTarget.identity; option = ModTarget.identity }

unfoldable pub left_hid_for : ModTarget → Option ℕ
left_hid_for ctrl = some Usage.left_ctrl
left_hid_for alt = some Usage.left_alt
left_hid_for shift = some Usage.left_shift
left_hid_for meta = some Usage.left_gui
left_hid_for identity = none

unfoldable pub right_hid_for : ModTarget → Option ℕ
right_hid_for ctrl = some Usage.right_ctrl
right_hid_for alt = some Usage.right_alt
right_hid_for shift = some Usage.right_shift
right_hid_for meta = some Usage.right_gui
right_hid_for identity = none

unfoldable pub modmask_for : ModTarget → ModMask → ModMask
modmask_for ctrl original = ModMask.ctrl
modmask_for alt original = ModMask.alt
modmask_for shift original = ModMask.shift
modmask_for meta original = ModMask.meta
modmask_for identity original = original

abbrev unwrap_or : Option ℕ → ℕ → ℕ
unwrap_or (some v) d = v
unwrap_or none d = d

unfoldable pub apply_to_hid : ModRemap → ℕ → ℕ
unfolding left_hid_for right_hid_for
apply_to_hid self hid =
    if hid == Usage.left_gui
    then unwrap_or (left_hid_for self.cmd) hid
    else if hid == Usage.right_gui
    then unwrap_or (right_hid_for self.cmd) hid
    else if hid == Usage.left_alt
    then unwrap_or (left_hid_for self.option) hid
    else if hid == Usage.right_alt
    then unwrap_or (right_hid_for self.option) hid
    else hid

-- `if src.contains(bit) { out.insert(target) }`
abbrev insert_if_set : ModMask → ModMask → ModMask → ModMask → ModMask
insert_if_set src bit target out = if contains src bit then ModMask.insert out target else out

unfoldable pub apply_to_modmask : ModRemap → ModMask → ModMask
unfolding modmask_for
apply_to_modmask self src =
    let out = insert_if_set src ModMask.shift ModMask.shift ModMask.empty in
    let out = insert_if_set src ModMask.ctrl ModMask.ctrl out in
    let out = insert_if_set src ModMask.alt (modmask_for self.option ModMask.alt) out in
    insert_if_set src ModMask.meta (modmask_for self.cmd ModMask.meta) out
