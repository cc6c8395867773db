-- ===== src/Modmap/Chords.antt =====
-- Keys and masks are translated alike: the remap is one function on the four modifiers, and both
-- entry points follow it.
use kmwarp.Base.{ℕ, ◌≡◌, ◌≢◌, Bool, true, false, ◌&&◌, ◌||◌, arith}
use kmwarp.Platform.ModMask.{ModMask, contains, insert, from_wire, to_wire}
use kmwarp.Platform.ModMask
use kmwarp.Modmap.{ModTarget, ModRemap, apply_to_hid, apply_to_modmask}
use kmwarp.Modmap.Usage

pub data Modifier : Type 0 where
  shift ctrl alt meta : Modifier

pub data Side : Type 0 where
  left right : Side

-- The wire bit and the HID usage of a modifier.
abbrev pub bit : Modifier → ModMask
bit shift = ModMask.shift
bit ctrl = ModMask.ctrl
bit alt = ModMask.alt
bit meta = ModMask.meta

abbrev pub usage : Side → Modifier → ℕ
usage left shift = Usage.left_shift
usage left ctrl = Usage.left_ctrl
usage left alt = Usage.left_alt
usage left meta = Usage.left_gui
usage right shift = Usage.right_shift
usage right ctrl = Usage.right_ctrl
usage right alt = Usage.right_alt
usage right meta = Usage.right_gui

abbrev resolve : ModTarget → Modifier → Modifier
resolve ModTarget.ctrl p = ctrl
resolve ModTarget.alt p = alt
resolve ModTarget.shift p = shift
resolve ModTarget.meta p = meta
resolve ModTarget.identity p = p

-- What a modifier becomes: only Option and Cmd have a setting.
abbrev pub target : ModRemap → Modifier → Modifier
target r shift = shift
target r ctrl = ctrl
target r alt = resolve r.option alt
target r meta = resolve r.cmd meta

abbrev same : Modifier → Modifier → Bool
same shift shift = true
same ctrl ctrl = true
same alt alt = true
same meta meta = true
same _ _ = false

-- Some modifier of `src` becomes `q`.
abbrev pub is_asked_for : ModRemap → ModMask → Modifier → Bool
is_asked_for r src q =
    contains src (bit shift) && same (target r shift) q
    || contains src (bit ctrl) && same (target r ctrl) q
    || contains src (bit alt) && same (target r alt) q
    || contains src (bit meta) && same (target r meta) q

-- A modifier key of either side becomes the key of its target on that side.
apply_to_hid-usage :
    (r : ModRemap) (s : Side) (p : Modifier) → apply_to_hid r (usage s p) ≡ usage s (target r p)
unfolding apply_to_hid
apply_to_hid-usage r s p = ground arith

-- The outgoing mask has the bit of a modifier exactly when some modifier of the incoming one
-- becomes it.
pub contains-apply_to_modmask :
    (r : ModRemap) (src : ModMask) (q : Modifier)
    → contains (apply_to_modmask r src) (bit q) ≡ is_asked_for r src q
unfolding apply_to_modmask contains insert
contains-apply_to_modmask r src q = ground arith

-- A key that is no Option and no Cmd key is left alone.
apply_to_hid_other :
    (r : ModRemap) (hid : ℕ)
    → ((s : Side) → hid ≢ usage s alt)
    → ((s : Side) → hid ≢ usage s meta)
    → apply_to_hid r hid ≡ hid
unfolding apply_to_hid
apply_to_hid_other r hid a m = ground (arith, a left, a right, m left, m right)

-- The outgoing mask has no reserved bit, so the wire carries it whole.
pub to_wire-apply_to_modmask :
    (r : ModRemap) (src : ModMask)
    → to_wire (apply_to_modmask r src) ≡ (apply_to_modmask r src).bits
unfolding apply_to_modmask insert to_wire
to_wire-apply_to_modmask r src = ground arith

-- So the mask that the peer reads is the outgoing mask.
pub from_wire-apply_to_modmask :
    (r : ModRemap) (src : ModMask)
    → from_wire (to_wire (apply_to_modmask r src)) ≡ apply_to_modmask r src
unfolding apply_to_modmask insert to_wire from_wire
from_wire-apply_to_modmask r src = ground arith
