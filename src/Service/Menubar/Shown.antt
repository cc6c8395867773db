-- ===== src/Service/Menubar/Shown.antt =====
-- What the menu of the server shows, against the statuses that the timer has seen.
use mathlib.Core.Path.{subst}
use kmwarp.Base.{
  ℕ, ◌≡◌, refl, sym, ap, ◌∙◌, Bool, true, false, List, [], ◌∷◌, ◌++◌, append_assoc, append-nil,
  Option, none, some, if◌then◌else◌, bytes_eq_iff, if_keeps, arith,
}
use kmwarp.Server.{ServerStatus, idle, listening, pairing, connected, active}
use kmwarp.Service.Menubar.{
  Menubar, new, format_status, same_status, kmwarp_suffix, status_prefix, raise_once,
  show_pairing_block, hide_pairing_block, render, is_rendered, refresh_if_changed, copy_code, ticks,
}

abbrev pub code_of : ServerStatus → Option (List ℕ)
code_of (pairing code) = some code
code_of _ = none

abbrev pub is_pairing : ServerStatus → Bool
is_pairing (pairing _) = true
is_pairing _ = false

abbrev pub raised : ServerStatus → Bool → List (List ℕ)
raised (pairing code) false = code ∷ []
raised (pairing code) true = []
raised idle paired = []
raised (listening _) paired = []
raised (connected _) paired = []
raised (active _) paired = []

-- The first code of each unbroken run of pairing statuses; a fresh code that is seen right after another
-- one adds nothing.
abbrev pub first_codes : Bool → List ServerStatus → List (List ℕ)
first_codes paired [] = []
first_codes paired (status ∷ seen) = raised status paired ++ first_codes (is_pairing status) seen

-- The code on the menu, where nothing of the pairing block is hidden.
abbrev pub shown_code : Menubar → Option (List ℕ)
shown_code m =
    if m.label_hidden
    then none
    else if m.code_hidden
    then none
    else if m.copy_hidden
    then none
    else if m.separator_hidden
    then none
    else some m.code_title

abbrev pub titled : Option (List ℕ) → Option (List ℕ)
titled none = none
titled (some code) = some (32 ∷ 32 ∷ code)

-- The menu of a status.
pub record Shows (s : ServerStatus) (m : Menubar) : Type 0 where
  pub button : m.button_title ≡ (format_status s).0 ++ kmwarp_suffix
  pub label : m.status_title ≡ status_prefix ++ (format_status s).1
  pub code : shown_code m ≡ titled (code_of s)
  pub copied : copy_code m ≡ code_of s

same_status→≡ : (a b : ServerStatus) → same_status a b ≡ true → a ≡ b
same_status→≡ idle idle h = refl
same_status→≡ (listening a) (listening b) h = ap listening ((bytes_eq_iff a b).0 h)
same_status→≡ (pairing a) (pairing b) h = ap pairing ((bytes_eq_iff a b).0 h)
same_status→≡ (connected a) (connected b) h = ap connected ((bytes_eq_iff a b).0 h)
same_status→≡ (active a) (active b) h = ap active ((bytes_eq_iff a b).0 h)
same_status→≡ a b h = ground arith

-- The flag and the items belong to the status rendered last.
abbrev Fits : Option ServerStatus → Menubar → Type 0
Fits none m = m.alert_shown ≡ false
Fits (some s) m = Shows s m × (m.alert_shown ≡ is_pairing s)

raise-Shows :
    (code : List ℕ) (paired : Bool) (m : Menubar)
    → m.alert_shown ≡ paired
    → Shows (pairing code) m
    → Shows (pairing code) (raise_once code paired m)
      × ((raise_once code paired m).alert_shown ≡ true)
      × ((raise_once code paired m).alerts ≡ m.alerts ++ raised (pairing code) paired)
      × ((raise_once code paired m).last_rendered ≡ m.last_rendered)
raise-Shows code true m e k = (k, e, sym (append-nil m.alerts), refl)
raise-Shows code false m e k = (
  record { button = k.button; label = k.label; code = k.code; copied = k.copied },
  refl,
  refl,
  refl,
)

render-Shows :
    (s : ServerStatus) (m : Menubar)
    → Shows s (render s m)
      × ((render s m).alert_shown ≡ is_pairing s)
      × ((render s m).alerts ≡ m.alerts ++ raised s m.alert_shown)
      × ((render s m).last_rendered ≡ m.last_rendered)
unfolding render show_pairing_block hide_pairing_block
render-Shows idle m = (
  record { button = refl; label = refl; code = refl; copied = refl },
  refl,
  sym (append-nil m.alerts),
  refl,
)
render-Shows (listening a) m = (
  record { button = refl; label = refl; code = refl; copied = refl },
  refl,
  sym (append-nil m.alerts),
  refl,
)
render-Shows (pairing a) m =
    raise-Shows a m.alert_shown _ refl
      (record { button = refl; label = refl; code = refl; copied = refl })
render-Shows (connected a) m = (
  record { button = refl; label = refl; code = refl; copied = refl },
  refl,
  sym (append-nil m.alerts),
  refl,
)
render-Shows (active a) m = (
  record { button = refl; label = refl; code = refl; copied = refl },
  refl,
  sym (append-nil m.alerts),
  refl,
)

record Refreshed (s : ServerStatus) (before m : Menubar) : Type 0 where
  shows : Shows s m
  flag : m.alert_shown ≡ is_pairing s
  alerted : m.alerts ≡ before.alerts ++ raised s before.alert_shown
  last : m.last_rendered ≡ some s

raised_again : (s : ServerStatus) (paired : Bool) → paired ≡ is_pairing s → raised s paired ≡ []
raised_again idle paired e = refl
raised_again (listening _) paired e = refl
raised_again (pairing _) true e = refl
raised_again (pairing _) false e = ground arith
raised_again (connected _) paired e = refl
raised_again (active _) paired e = refl

skips :
    (s : ServerStatus) (m : Menubar) (last : Option ServerStatus)
    → m.last_rendered ≡ last
    → Fits last m
    → is_rendered last s ≡ true
    → Refreshed s m m
skips s m none e k h = absurd (ground arith)
skips s m (some a) e k h =
    let same = same_status→≡ a s h in
    let k' = subst (λ x. Fits (some x) m) same k in
    record {
      shows = k'.0;
      flag = k'.1;
      alerted = sym (append-nil m.alerts) ∙ ap (λ r. m.alerts ++ r) (sym (raised_again s _ k'.1));
      last = e ∙ ap some same;
    }

refresh-Refreshed :
    (s : ServerStatus) (m : Menubar)
    → Fits m.last_rendered m
    → Refreshed s m (refresh_if_changed s m)
unfolding refresh_if_changed
refresh-Refreshed s m k =
    if_keeps (λ v. Refreshed s m v) (is_rendered m.last_rendered s) _ _
      (λ h. skips s m m.last_rendered refl k h)
      (λ _.
        let r = render-Shows s (record m { last_rendered = some s }) in
        record { shows = r.0; flag = r.1; alerted = r.2; last = r.3 })

abbrev pub last_seen : ServerStatus → List ServerStatus → ServerStatus
last_seen s [] = s
last_seen s (t ∷ seen) = last_seen t seen

ticks-Refreshed :
    (s : ServerStatus) (seen : List ServerStatus) (m : Menubar)
    → Fits m.last_rendered m
    → Shows (last_seen s seen) (ticks (s ∷ seen) m)
      × ((ticks (s ∷ seen) m).alerts ≡ m.alerts ++ first_codes m.alert_shown (s ∷ seen))
unfolding ticks
ticks-Refreshed s [] m k =
    let r = refresh-Refreshed s m k in
    (r.shows, r.alerted ∙ ap (λ x. m.alerts ++ x) (sym (append-nil (raised s m.alert_shown))))
ticks-Refreshed s (t ∷ seen) m k =
    let r = refresh-Refreshed s m k in
    let m' = refresh_if_changed s m in
    let rest = ticks-Refreshed t seen m' (subst (λ l. Fits l m') (sym r.last) (r.shows, r.flag)) in
    let flagged = ap (λ b. m'.alerts ++ first_codes b (t ∷ seen)) r.flag in
    let alerted = ap (λ x. x ++ first_codes (is_pairing s) (t ∷ seen)) r.alerted in
    (rest.0, rest.1 ∙ flagged ∙ alerted ∙ append_assoc m.alerts _ _)

-- After the first refresh and any ticks, with whatever statuses they saw, the menu is that of the last
-- status seen: its glyph, its text, its code while it is a pairing and no code otherwise, on the menu
-- and for the pasteboard. The alerts raised are those for the first code of each unbroken run of pairing
-- statuses seen, in order; a fresh code that is seen right after another one raises none.
pub ticks-Shows :
    (title : List ℕ) (s : ServerStatus) (seen : List ServerStatus)
    → Shows (last_seen s seen) (ticks (s ∷ seen) (new title))
      × ((ticks (s ∷ seen) (new title)).alerts ≡ first_codes false (s ∷ seen))
ticks-Shows title s seen = ticks-Refreshed s seen (new title) refl
