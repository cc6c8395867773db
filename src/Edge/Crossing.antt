-- ===== src/Edge/Crossing.antt =====
-- Releases, and where a crossing and a release leave the cursor.
use kmwarp.Base.{
  ℕ, ◌<◌, ◌≡◌, List, [], ◌∷◌, ℤ, pos, u32_as_i32, saturating_sub_i32, arith, pos_part,
}
use kmwarp.Wire.{Message}
use kmwarp.Edge.{local_active, StateMachine, EdgeConfig, on_wire_message}

-- Releasing control is never held back by the cooldown, and gives the input back to this machine.
pub on_wire_message_releases :
    (sm : StateMachine) (exit_y now : ℕ)
    → (on_wire_message sm (Message.release_control exit_y) now).0.state ≡ local_active
unfolding on_wire_message
on_wire_message_releases sm exit_y now = ground arith

-- The screen has a width that an `i32` can hold, and the back-warp goes back.
abbrev pub IsUsable : EdgeConfig → Type 0
IsUsable cfg =
    (0 < cfg.local_screen_w) × (cfg.local_screen_w < 2147483648) × (0 < pos_part cfg.back_warp_px)

-- Where a crossing warps the cursor to, and where a release does.
abbrev pub warp_targets : EdgeConfig → List ℤ
warp_targets cfg =
    saturating_sub_i32 (u32_as_i32 cfg.local_screen_w) cfg.back_warp_px
    ∷ saturating_sub_i32 (u32_as_i32 cfg.local_screen_w) (pos 1)
    ∷ []
