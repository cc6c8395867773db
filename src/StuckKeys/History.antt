-- ===== src/StuckKeys/History.antt =====
-- The tracker against the history of key transitions: a key is held exactly when the last
-- transition that was seen of it is a press.
use kmwarp.Base.{ℕ, ◌≡◌, refl, Bool, false, List, [], ◌∷◌, ◌==◌, if◌then◌else◌}
use kmwarp.Platform.{KeyState}
use kmwarp.StuckKeys.{HeldKeys, new, contains_key, is_held, observe, drain}
use kmwarp.StuckKeys.Order.{IsAscending, IsValid, is_down, observe-IsValid, is_held-observe}

-- The transitions, oldest first.
pub observe_all : HeldKeys → List (ℕ × KeyState) → HeldKeys
observe_all h [] = h
observe_all h ((hid, s) ∷ es) = observe_all (observe h hid s) es

-- Whether the last transition of `j` is a press, `before` telling what held earlier.
pub last_is_down : Bool → ℕ → List (ℕ × KeyState) → Bool
last_is_down before j [] = before
last_is_down before j ((hid, s) ∷ es) = last_is_down (if j == hid then is_down s else before) j es

observe_all_from :
    (h : HeldKeys) (es : List (ℕ × KeyState)) (j : ℕ)
    → IsValid h
    → IsValid (observe_all h es) × (is_held (observe_all h es) j ≡ last_is_down (is_held h j) j es)
unfolding observe_all last_is_down
observe_all_from h [] j v = (v, refl)
observe_all_from h ((hid, s) ∷ es) j v =
    rw (← is_held-observe h hid s j v)
      (observe_all_from (observe h hid s) es j (observe-IsValid h hid s v))

-- A drain after any history lists the keys whose last transition is a press, each once and in
-- ascending order, and leaves nothing held.
drain-observe_all :
    (es : List (ℕ × KeyState)) (j : ℕ)
    → let (keys, left) = drain (observe_all new es) in
      IsAscending keys × (contains_key j keys ≡ last_is_down false j es) × (is_held left j ≡ false)
unfolding drain is_held contains_key
drain-observe_all es j = let (v, held) = observe_all_from new es j tt in (v, held, refl)
