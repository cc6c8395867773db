-- ===== src/Tap/Swallow.antt =====
-- What the system and the rest of the program see of the events, while the tap swallows and while not.
use kmwarp.Base.{
  bool_eq, bool_eq_sound, ℕ, ◌<◌, ◌≡◌, refl, ap, ◌∙◌, Bool, true, ◌&&◌, List, [], ◌∷◌, Option, none,
  some, if◌then◌else◌, arith, every_below, every_below_at, ◌++◌, Bool-cases, inl, inr,
}
use mathlib.Core.Path.{ap₂}
use kmwarp.Tap.Event.{CgEvent}
use kmwarp.Tap.{
  is_swallowable, make_event_mask, is_held_bit, cb_thunk, TapState, Callback, tap_run, translate,
  reenable, reports, is_disabled,
}

-- The operating system delivers the types whose bit is set.
abbrev pub is_subscribed : ℕ → Bool
is_subscribed etype = is_held_bit make_event_mask etype

subscribed_table : every_below (λ t. bool_eq (is_swallowable t) (is_subscribed t)) 64 ≡ true
unfolding every_below is_swallowable is_held_bit make_event_mask
subscribed_table = refl

is_swallowable-is_subscribed : (t : ℕ) → t < 64 → is_swallowable t ≡ is_subscribed t
is_swallowable-is_subscribed t h =
    bool_eq_sound _ _
      (every_below_at (λ t. bool_eq (is_swallowable t) (is_subscribed t)) 64 t subscribed_table h)

cb_thunk-is_swallowable :
    (etype : ℕ) (event : CgEvent) (state : TapState)
    → etype < 64
    → (cb_thunk etype (some event) state).1
      ≡ (if state.swallow && is_swallowable etype then none else some event)
unfolding cb_thunk
cb_thunk-is_swallowable etype event state h = ground arith

-- Of the event types that a mask of 64 bits can ask for, the callback keeps back from the system, while
-- the tap swallows, exactly the types that it has subscribed to; all others, and all while it does not
-- swallow, are passed on unchanged.
pub cb_thunk-make_event_mask :
    (etype : ℕ) (event : CgEvent) (state : TapState)
    → etype < 64
    → (cb_thunk etype (some event) state).1
      ≡ (if state.swallow && is_subscribed etype then none else some event)
cb_thunk-make_event_mask etype event state h =
    cb_thunk-is_swallowable etype event state h
    ∙ ap (λ b. if state.swallow && b then none else some event)
        (is_swallowable-is_subscribed etype h)

-- Two taps that have sent the same and hold the same keys.
abbrev pub Agree : TapState → TapState → Type 0
Agree s s' = (s.sent ≡ s'.sent) × (s.held_mods ≡ s'.held_mods)

reenable-Agree : (s s' : TapState) → Agree s s' → Agree (reenable s) (reenable s')
reenable-Agree s s' (a, b) = ground arith

cb_thunk-Agree :
    (etype : ℕ) (event : Option CgEvent) (s s' : TapState)
    → Agree s s'
    → Agree (cb_thunk etype event s).0 (cb_thunk etype event s').0
unfolding cb_thunk
cb_thunk-Agree etype none s s' (a, b) = ground arith
cb_thunk-Agree etype (some event) s s' (a, b) = elim (Bool-cases (is_disabled etype)) [
  | inl off ↦ rw off (reenable-Agree s s' (a, b))
  | inr on ↦ rw on (
    ap₂ (λ sent held. sent ++ reports etype event held) a b,
    ap (λ held. (translate etype event held).1) b,
  )
]

-- The same callbacks under another course of the swallow flag.
unfoldable pub reflag : List Callback → List Bool → List Callback
reflag [] flags = []
reflag (c ∷ cs) [] = c ∷ reflag cs []
reflag (c ∷ cs) (b ∷ flags) = record c { swallowing = b } ∷ reflag cs flags

tap_run-Agree :
    (cs : List Callback) (flags : List Bool) (s s' : TapState)
    → Agree s s'
    → Agree (tap_run cs s) (tap_run (reflag cs flags) s')
unfolding tap_run reflag
tap_run-Agree [] flags s s' same = same
tap_run-Agree (c ∷ cs) [] s s' same =
    tap_run-Agree cs [] _ _ (cb_thunk-Agree c.etype c.event _ _ same)
tap_run-Agree (c ∷ cs) (b ∷ flags) s s' same =
    tap_run-Agree cs flags _ _ (cb_thunk-Agree c.etype c.event _ _ same)

-- The events that reach the rest of the program, and what is known of the held modifiers, do not depend
-- on when the tap swallows.
tap_run-reflag :
    (cs : List Callback) (flags : List Bool) (state : TapState)
    → ((tap_run cs state).sent ≡ (tap_run (reflag cs flags) state).sent)
      × ((tap_run cs state).held_mods ≡ (tap_run (reflag cs flags) state).held_mods)
tap_run-reflag cs flags state = tap_run-Agree cs flags state state (refl, refl)
