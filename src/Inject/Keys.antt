-- ===== src/Inject/Keys.antt =====
-- The keys that Windows has down, against the keys that the sink was asked to have down.
use kmwarp.Base.{
  ℕ, ◌≡◌, refl, sym, ap, ◌∙◌, Bool, true, false, not, ◌&&◌, some, Option-cases, List, [], ◌∷◌, ◌++◌,
  ◌==◌, if◌then◌else◌, arith, Bool-cases, inl, inr, bool_eq, bool_eq_sound, Result, ℤ, append_assoc,
}
use mathlib.Core.Option.{some-injective}
use kmwarp.Platform.{SinkCall, KeyState, up, down}
use kmwarp.StuckKeys.Order.{is_down}
use kmwarp.Clipboard.{EchoGuard}
use kmwarp.Channel.{Sender}
use kmwarp.Wire.{Message}
use kmwarp.Client.{Session}
use kmwarp.StuckKeys.{is_held}
use kmwarp.Client.Pump.{injector_loop, drop_session, new_guard}
use kmwarp.Client.Pump.Release.{key_is_down, injector_loop-drop_session}
use kmwarp.Hid.{WinScancode}
use kmwarp.Hid.Lookup.{hid_to_windows_scancode}
use kmwarp.Hid.Bijection.{hid_to_windows_scancode_injective}
use kmwarp.Inject.{
  Win32Call, KeybdInput, KeyEventFlag, key_flags, send_scancode, win_input_sink, win32_calls,
  inject_key, inject_mouse_rel, inject_mouse_button, inject_mouse_wheel, wheel_axis, is_nonzero,
  MouseEventFlag,
}

abbrev pub is_extended_flag : KeyEventFlag → Bool
is_extended_flag KeyEventFlag.extended_key = true
is_extended_flag _ = false

abbrev pub is_key_up_flag : KeyEventFlag → Bool
is_key_up_flag KeyEventFlag.key_up = true
is_key_up_flag _ = false

abbrev pub has_flag : (KeyEventFlag → Bool) → List KeyEventFlag → Bool
has_flag test [] = false
has_flag test (flag ∷ flags) = if test flag then true else has_flag test flags

abbrev pub same_scancode : WinScancode → WinScancode → Bool
same_scancode s t = (s.code == t.code) && bool_eq s.extended t.extended

-- The scancode of a key event, as the system reads it.
abbrev pub scancode_of : KeybdInput → WinScancode
scancode_of ki = record { code = ki.w_scan; extended = has_flag is_extended_flag ki.dw_flags }

-- Whether the key of a scancode is down after the calls, `before` telling what held earlier.
abbrev pub scancode_is_down : WinScancode → Bool → List Win32Call → Bool
scancode_is_down s before [] = before
scancode_is_down s before (Win32Call.keybd_input ki ∷ calls) =
    scancode_is_down s
      (if same_scancode (scancode_of ki) s
        then not (has_flag is_key_up_flag ki.dw_flags)
        else before)
      calls
scancode_is_down s before (Win32Call.mouse_input mi ∷ calls) = scancode_is_down s before calls
scancode_is_down s before (Win32Call.set_cursor_pos x y ∷ calls) = scancode_is_down s before calls

same_scancode_sound : (s t : WinScancode) → same_scancode s t ≡ true → s ≡ t
same_scancode_sound s t h =
    let code : s.code ≡ t.code = ground arith in
    let both : bool_eq s.extended t.extended ≡ true = ground arith in
    let extended = bool_eq_sound s.extended t.extended both in cc

same_scancode_refl : (s : WinScancode) → same_scancode s s ≡ true
same_scancode_refl s = ground arith

-- Two usages are one exactly when their scancodes are.
same_usage :
    (j hid : ℕ) (s t : WinScancode)
    → hid_to_windows_scancode j ≡ some s
    → hid_to_windows_scancode hid ≡ some t
    → same_scancode t s ≡ (j == hid)
same_usage j hid s t w w' = elim (Bool-cases (same_scancode t s)) [
  | inl same ↦
      let one = same_scancode_sound t s same in
      let usage = hid_to_windows_scancode_injective j hid s w (w' ∙ ap some one) in ground arith
  | inr differ ↦ elim (Bool-cases (j == hid)) [
    | inl one ↦
        let usage : j ≡ hid = ground arith in
        let scan : s ≡ t = some-injective _ _ (sym w ∙ ap hid_to_windows_scancode usage ∙ w') in
        absurd (let bad = rw scan at differ in let good = same_scancode_refl t in ground arith)
    | inr two ↦ differ ∙ sym two
  ]
]

read_extended : (e : Bool) (state : KeyState) → has_flag is_extended_flag (key_flags e state) ≡ e
read_extended true state = refl
read_extended false up = refl
read_extended false down = refl

read_up :
    (e : Bool) (state : KeyState)
    → not (has_flag is_key_up_flag (key_flags e state)) ≡ is_down state
read_up true up = refl
read_up false up = refl
read_up true down = refl
read_up false down = refl

-- What one key event does to the scancode `s`.
sent :
    (s t : WinScancode) (before : Bool) (state : KeyState) (rest : List Win32Call)
    → scancode_is_down s before (send_scancode (some t) state ++ rest)
      ≡ scancode_is_down s (if same_scancode t s then is_down state else before) rest
sent s t before state rest =
    ap
      (λ e.
        scancode_is_down s
          (if same_scancode (record { code = t.code; extended = e }) s
            then not (has_flag is_key_up_flag (key_flags t.extended state))
            else before)
          rest)
      (read_extended t.extended state)
    ∙ ap (λ d. scancode_is_down s (if same_scancode t s then d else before) rest)
        (read_up t.extended state)

-- A call for the mouse changes no key.
wheel_axis-scancode_is_down :
    (s : WinScancode) (before : Bool) (flag : MouseEventFlag) (d : ℤ) (rest : List Win32Call)
    → scancode_is_down s before (wheel_axis flag d ++ rest) ≡ scancode_is_down s before rest
wheel_axis-scancode_is_down s before flag d rest = elim (Bool-cases (is_nonzero d)) [
  | inl some_of_it ↦ rw (some_of_it, wheel_axis) refl
  | inr none_of_it ↦ rw (none_of_it, wheel_axis) refl
]

-- What a key call does to the scancode of a usage.
inject_key-scancode_is_down :
    (j hid : ℕ) (s : WinScancode) (before : Bool) (state : KeyState) (rest : List Win32Call)
    → hid_to_windows_scancode j ≡ some s
    → scancode_is_down s before (inject_key hid state ++ rest)
      ≡ scancode_is_down s (if j == hid then is_down state else before) rest
unfolding inject_key
inject_key-scancode_is_down j hid s before state rest w =
    elim (Option-cases (hid_to_windows_scancode hid)) [
      | inl missing ↦ elim (Bool-cases (j == hid)) [
        | inl one ↦
            let usage : j ≡ hid = ground arith in
            absurd (let bad = sym w ∙ ap hid_to_windows_scancode usage ∙ missing in ground arith)
        | inr two ↦ rw (missing, two, send_scancode) refl
      ]
      | inr (t, found) ↦
          rw (found, send_scancode)
            (sent s t before state rest
              ∙ ap (λ same. scancode_is_down s (if same then is_down state else before) rest)
                  (same_usage j hid s t w found))
    ]

-- The calls on the system of more calls on the sink.
pub win32_calls-key_is_down :
    (j : ℕ) (s : WinScancode) (before : Bool) (calls : List SinkCall)
    → hid_to_windows_scancode j ≡ some s
    → scancode_is_down s before (win32_calls calls) ≡ key_is_down j before calls
unfolding win_input_sink inject_mouse_rel inject_mouse_button inject_mouse_wheel
win32_calls-key_is_down j s before [] w = refl
win32_calls-key_is_down j s before (SinkCall.inject_key hid state mods ∷ calls) w =
    inject_key-scancode_is_down j hid s before state (win32_calls calls) w
    ∙ win32_calls-key_is_down j s (if j == hid then is_down state else before) calls w
win32_calls-key_is_down j s before (SinkCall.inject_mouse_rel dx dy ∷ calls) w =
    win32_calls-key_is_down j s before calls w
win32_calls-key_is_down j s before (SinkCall.inject_mouse_button btn state ∷ calls) w =
    win32_calls-key_is_down j s before calls w
win32_calls-key_is_down j s before (SinkCall.inject_mouse_wheel dx dy ∷ calls) w =
    ap (scancode_is_down s before) (
      append_assoc (wheel_axis MouseEventFlag.wheel dy) (wheel_axis MouseEventFlag.h_wheel dx)
        (win32_calls calls))
    ∙ wheel_axis-scancode_is_down s before MouseEventFlag.wheel dy _
    ∙ wheel_axis-scancode_is_down s before MouseEventFlag.h_wheel dx (win32_calls calls)
    ∙ win32_calls-key_is_down j s before calls w
win32_calls-key_is_down j s before (SinkCall.warp_cursor_abs x y ∷ calls) w =
    win32_calls-key_is_down j s before calls w
win32_calls-key_is_down j s before (SinkCall.hide_cursor ∷ calls) w =
    win32_calls-key_is_down j s before calls w
win32_calls-key_is_down j s before (SinkCall.show_cursor ∷ calls) w =
    win32_calls-key_is_down j s before calls w

-- The outbound channel; the hash of the echo guard; whether a write to the system's clipboard
-- succeeds; the peer's address.
module _ {Q : Type 0} (tx : Sender Q) (hash : List ℕ → List ℕ) (write_ok : List ℕ → Bool)
    (peer_addr : List ℕ) where
  -- Whatever frames arrive, and whether the loop ends by a Bye, by an error or is aborted, for every
  -- usage that has a scancode: while the loop runs, Windows has the key of the scancode down exactly
  -- when the guard holds the usage, if no key was down before, and once the guard is dropped, it is up.
  injector_loop-win32_calls :
      {E : Type 0} (frames : List (Result Message E)) (s : Session Q) (echo_guard : EchoGuard)
      (hid : ℕ) (sc : WinScancode)
      → hid_to_windows_scancode hid ≡ some sc
      → let ended =
          (injector_loop tx hash write_ok peer_addr frames
            (record s { guard = new_guard [] echo_guard })).0 in
        let dropped = drop_session tx hash write_ok peer_addr ended in
        (scancode_is_down sc false (win32_calls ended.guard.sink) ≡ is_held ended.guard.held hid)
        × (scancode_is_down sc false (win32_calls dropped.guard.sink) ≡ false)
  injector_loop-win32_calls frames s echo_guard hid sc w =
      let (same, released) =
        injector_loop-drop_session tx hash write_ok peer_addr frames s echo_guard hid in
      (
        win32_calls-key_is_down hid sc false _ w ∙ sym same,
        win32_calls-key_is_down hid sc false _ w ∙ released,
      )
