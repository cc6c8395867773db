-- ===== src/Tap/Modifiers.antt =====
-- The bitmap of held modifiers, which turns changes of the flags into presses and releases.
use kmwarp.Base.{
  ℕ, ◌<◌, ◌+◌, ◌%◌, ◌≡◌, refl, sym, ap, ◌∙◌, Bool, true, false, not, ◌&&◌, List, [], ◌∷◌, Option,
  none, some, ◌==◌, if◌then◌else◌, arith,
}
use kmwarp.Platform.{SourceEvent, up, down}
use kmwarp.Hid.Lookup.{macos_to_hid}
use kmwarp.Tap.EventType
use kmwarp.Tap.Event.{CgEvent, i64_as_u16, key_event_of, mods_from_flags}
use kmwarp.Tap.{
  mod_bit, is_held_bit, toggle_mod, translate, translate_flags_changed, TapState, cb_thunk,
  Callback, tap_run,
}
use kmwarp.Tap.Bits.{is_held_bit-toggle_bit, toggle_bit-lt, is_held_bit_none}

-- The tracked keys have different bits, all below nine.
mod_bit-lt : (vk : ℕ) {k : ℕ} → mod_bit vk ≡ some k → k < 9
unfolding mod_bit
mod_bit-lt vk h = ground arith

mod_bit-injective :
    (vk other : ℕ) {k j : ℕ}
    → mod_bit vk ≡ some k
    → mod_bit other ≡ some j
    → (k == j) ≡ (vk == other)
unfolding mod_bit
mod_bit-injective vk other p q = ground arith

mod_bit_untracked :
    (vk other : ℕ) {k : ℕ} → mod_bit vk ≡ some k → mod_bit other ≡ none → (other == vk) ≡ false
unfolding mod_bit
mod_bit_untracked vk other p q = ground arith

-- The outcome for the bit of `vk` of an event that is a change of that key, or is not.
abbrev Turned : ℕ → ℕ → Bool → ℕ → Type 0
Turned k held change after =
    (is_held_bit after k ≡ (if change then not (is_held_bit held k) else is_held_bit held k))
    × (after < 512)

toggle_mod-Turned :
    (vk v k : ℕ) (event : CgEvent) (held : ℕ)
    → mod_bit vk ≡ some k
    → held < 512
    → Turned k held (v == vk) (toggle_mod (mod_bit v) event held).1
toggle_mod-Turned vk v k event held tracked small = go (mod_bit v) refl
  where
    go : (o : Option ℕ) → mod_bit v ≡ o → Turned k held (v == vk) (toggle_mod o event held).1
    go none e = (
      sym (
          ap (λ b. if b then not (is_held_bit held k) else is_held_bit held k)
            (mod_bit_untracked vk v tracked e)),
      small,
    )
    go (some j) e = (
      is_held_bit-toggle_bit j k held (mod_bit-lt v e) (mod_bit-lt vk tracked) small
          ∙ ap (λ b. if b then not (is_held_bit held k) else is_held_bit held k)
              (mod_bit-injective v vk e tracked),
      toggle_bit-lt j held (mod_bit-lt v e) small,
    )

-- The event is a change of the flags by the key `vk`.
abbrev pub is_change_of : ℕ → ℕ → Option CgEvent → Bool
is_change_of vk etype none = false
is_change_of vk etype (some event) =
    etype == EventType.flags_changed && i64_as_u16 event.keycode == vk

translate-held :
    (etype : ℕ) (event : CgEvent) (held : ℕ)
    → (translate etype event held).1
      ≡ (if etype == EventType.flags_changed then (translate_flags_changed event held).1 else held)
unfolding translate
translate-held etype event held = ground arith

translate-Turned :
    (vk k etype : ℕ) (event : CgEvent) (held : ℕ)
    → mod_bit vk ≡ some k
    → held < 512
    → Turned k held (is_change_of vk etype (some event)) (translate etype event held).1
unfolding translate_flags_changed
translate-Turned vk k etype event held tracked small =
    let t = toggle_mod-Turned vk (i64_as_u16 event.keycode) k event held tracked small in
    rw (translate-held etype event held)
      (elim (etype == EventType.flags_changed)
        as (λ b.
          Turned k held (b && i64_as_u16 event.keycode == vk)
            (if b then (translate_flags_changed event held).1 else held)) [
              | true ↦ t
              | false ↦ (refl, small)
            ])

cb_thunk-held :
    (etype : ℕ) (event : CgEvent) (state : TapState)
    → (cb_thunk etype (some event) state).0.held_mods ≡ (translate etype event state.held_mods).1
unfolding cb_thunk
cb_thunk-held etype event state = ground (arith, translate-held etype event state.held_mods)

cb_thunk-held_null :
    (etype : ℕ) (state : TapState) → (cb_thunk etype none state).0.held_mods ≡ state.held_mods
unfolding cb_thunk
cb_thunk-held_null etype state = ground arith

cb_thunk-Turned :
    (vk k etype : ℕ) (event : Option CgEvent) (state : TapState)
    → mod_bit vk ≡ some k
    → state.held_mods < 512
    → Turned k state.held_mods
        (is_change_of vk etype event)
        (cb_thunk etype event state).0.held_mods
cb_thunk-Turned vk k etype none state tracked small =
    rw (cb_thunk-held_null etype state) (refl, small)
cb_thunk-Turned vk k etype (some event) state tracked small =
    rw (cb_thunk-held etype event state)
      (translate-Turned vk k etype event state.held_mods tracked small)

-- How often the flags changed by the key `vk`.
abbrev pub changes : ℕ → List Callback → ℕ
changes vk [] = 0
changes vk (c ∷ cs) = (if is_change_of vk c.etype c.event then 1 else 0) + changes vk cs

abbrev pub is_odd : ℕ → Bool
is_odd n = n % 2 == 1

flip-is_odd :
    (was change : Bool) (n : ℕ)
    → (if is_odd n
        then not (if change then not was else was)
        else (if change then not was else was))
      ≡ (if is_odd ((if change then 1 else 0) + n) then not was else was)
flip-is_odd was change n = ground arith

tap_run-held :
    (vk k : ℕ) (cs : List Callback) (state : TapState)
    → mod_bit vk ≡ some k
    → state.held_mods < 512
    → is_held_bit (tap_run cs state).held_mods k ≡ (
        if is_odd (changes vk cs)
        then not (is_held_bit state.held_mods k)
        else is_held_bit state.held_mods k)
unfolding tap_run
tap_run-held vk k [] state tracked small = refl
tap_run-held vk k (c ∷ cs) state tracked small =
    let next : TapState = record state { swallow = c.swallowing } in
    let (turned, small') = cb_thunk-Turned vk k c.etype c.event next tracked small in
    tap_run-held vk k cs (cb_thunk c.etype c.event next).0 tracked small'
    ∙ ap (λ b. if is_odd (changes vk cs) then not b else b) turned
    ∙ flip-is_odd (is_held_bit state.held_mods k) (is_change_of vk c.etype c.event) (changes vk cs)

odd_or_even : (b : Bool) → (if b then not false else false) ≡ b
odd_or_even true = refl
odd_or_even false = refl

-- After any callbacks of a new tap, a change of the flags by a tracked modifier is reported as a press
-- when the flags changed by that key an even number of times before, and as a release when it was odd,
-- whatever the other keys did.
pub translate_flags_changed-tap_run :
    (vk k hid : ℕ) (cs : List Callback) (event : CgEvent) (state : TapState)
    → mod_bit vk ≡ some k
    → macos_to_hid vk ≡ some hid
    → i64_as_u16 event.keycode ≡ vk
    → state.held_mods ≡ 0
    → (translate_flags_changed event (tap_run cs state).held_mods).0
      ≡ some (
          SourceEvent.key hid (if is_odd (changes vk cs) then up else down) (mods_from_flags event))
unfolding translate_flags_changed
translate_flags_changed-tap_run vk k hid cs event state tracked known is new =
    let held = (tap_run cs state).held_mods in
    let small : state.held_mods < 512 = omega arith in
    let before : is_held_bit held k ≡ is_odd (changes vk cs) =
      tap_run-held vk k cs state tracked small
      ∙ ap (λ b. if is_odd (changes vk cs) then not b else b)
          (ap (λ h. is_held_bit h k) new ∙ is_held_bit_none k (mod_bit-lt vk tracked))
      ∙ odd_or_even (is_odd (changes vk cs)) in
    ap (λ o. (toggle_mod o event held).0) (ap mod_bit is ∙ tracked)
    ∙ ap (λ o. key_event_of o (if is_held_bit held k then up else down) event)
        (ap macos_to_hid is ∙ known)
    ∙ ap (λ b. some (SourceEvent.key hid (if b then up else down) (mods_from_flags event))) before
