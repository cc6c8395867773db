-- ===== src/Base.antt =====
-- The names that all modules share: the libraries', passed on, and those of the children:
-- Boolean tests, lists over the native numbers, signed integers, fallible results, byte values.
mod Tests
mod Lists
mod Ints
mod Results
mod Bytes
mod Ranges
pub use Tests.*
pub use Lists.*
pub use Ints.*
pub use Results.*
unfoldable pub use Bytes.*
unfoldable pub use Ranges.*
pub use Prim.Native.Nat.{ℕ, zero, suc, ◌+◌, ◌-◌, ◌*◌, ◌/◌, ◌%◌, ◌^◌, ◌≤◌, ◌<◌, min, bit_and, bit_or}
pub use mathlib.Core.Path.{◌≡◌, refl, sym, ap, ◌∙◌}
pub use mathlib.Core.Logic.{◌≢◌, ◌↔◌, ◌⊎◌, inl, inr}
pub use mathlib.Core.Bool.{Bool, true, false, not, ◌&&◌, ◌||◌}
pub use mathlib.Core.Option.{Option, none, some}
pub use mathlib.Core.List.{List, [], ◌∷◌, ◌++◌, map, append-nil, append_assoc}
pub use native.Mathlib.Omega.{arith}
