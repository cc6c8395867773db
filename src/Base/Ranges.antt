-- ===== src/Base/Ranges.antt =====
-- Facts about all numbers of a small range, by evaluation.
use Prim.Native.Nat.{ℕ, zero, suc, ◌<◌}
use kmwarp.Base.Tests.{if◌then◌else◌}
use mathlib.Core.Path.{◌≡◌, sym}
use mathlib.Core.Bool.{Bool, true, false, not}
use native.Mathlib.Omega.{arith}

unfoldable pub every_below : (ℕ → Bool) → ℕ → Bool
every_below test zero = true
every_below test (suc last) = if test last then every_below test last else false

pub every_below_at :
    (test : ℕ → Bool) (bound k : ℕ) → every_below test bound ≡ true → k < bound → test k ≡ true
unfolding every_below
every_below_at test zero k e small = absurd (omega arith)
every_below_at test (suc last) k e small =
    let earlier = every_below_at test last k in ground (arith, earlier)

-- The two agree.
abbrev pub bool_eq : Bool → Bool → Bool
bool_eq true b = b
bool_eq false b = not b

pub bool_eq_sound : (a b : Bool) → bool_eq a b ≡ true → a ≡ b
bool_eq_sound true b h = sym h
bool_eq_sound false b h = ground arith
