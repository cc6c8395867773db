-- ===== src/Service/Menubar.antt =====
-- crates/server/src/service/menubar.rs: the state of the controller and the titles of its items after
-- `run_on_main_thread` has made them. Texts are the bytes of their UTF-8; the drawing is the system's.
pub mod Shown
use kmwarp.Base.{
  ℕ, Bool, true, false, List, [], ◌∷◌, ◌++◌, Option, none, some, if◌then◌else◌, bytes_eq,
}
use kmwarp.Server.{ServerStatus, idle, listening, pairing, connected, active}

abbrev pub white_circle : List ℕ
white_circle = 226 ∷ 154 ∷ 170 ∷ []

abbrev pub yellow_circle : List ℕ
yellow_circle = 240 ∷ 159 ∷ 159 ∷ 161 ∷ []

abbrev pub green_circle : List ℕ
green_circle = 240 ∷ 159 ∷ 159 ∷ 162 ∷ []

abbrev pub blue_circle : List ℕ
blue_circle = 240 ∷ 159 ∷ 148 ∷ 181 ∷ []

abbrev pub idle_text : List ℕ
idle_text = 105 ∷ 100 ∷ 108 ∷ 101 ∷ []

abbrev pub listening_text : List ℕ
listening_text = 108 ∷ 105 ∷ 115 ∷ 116 ∷ 101 ∷ 110 ∷ 105 ∷ 110 ∷ 103 ∷ 32 ∷ 111 ∷ 110 ∷ 32 ∷ []

abbrev pub pairing_text : List ℕ
pairing_text =
    112 ∷ 97 ∷ 105 ∷ 114 ∷ 105 ∷ 110 ∷ 103 ∷ 32 ∷ 226 ∷ 128 ∷ 148 ∷ 32 ∷ 99 ∷ 111 ∷ 100 ∷ 101 ∷ 32
    ∷ []

abbrev pub connected_text : List ℕ
connected_text = 99 ∷ 111 ∷ 110 ∷ 110 ∷ 101 ∷ 99 ∷ 116 ∷ 101 ∷ 100 ∷ 32 ∷ 116 ∷ 111 ∷ 32 ∷ []

abbrev pub active_text : List ℕ
active_text =
    97 ∷ 99 ∷ 116 ∷ 105 ∷ 118 ∷ 101 ∷ 32 ∷ 226 ∷ 128 ∷ 148 ∷ 32 ∷ 102 ∷ 111 ∷ 114 ∷ 119 ∷ 97 ∷ 114
    ∷ 100 ∷ 105 ∷ 110 ∷ 103 ∷ 32 ∷ 116 ∷ 111 ∷ 32 ∷ []

abbrev pub kmwarp_suffix : List ℕ
kmwarp_suffix = 32 ∷ 107 ∷ 109 ∷ 119 ∷ 97 ∷ 114 ∷ 112 ∷ []

abbrev pub status_prefix : List ℕ
status_prefix = 83 ∷ 116 ∷ 97 ∷ 116 ∷ 117 ∷ 115 ∷ 58 ∷ 32 ∷ []

-- `render` reads the glyph and the text off a status.
abbrev pub format_status : ServerStatus → List ℕ × List ℕ
format_status idle = (white_circle, idle_text)
format_status (listening addr) = (white_circle, listening_text ++ addr)
format_status (pairing code) = (yellow_circle, pairing_text ++ code)
format_status (connected peer) = (green_circle, connected_text ++ peer)
format_status (active peer) = (blue_circle, active_text ++ peer)

-- `PartialEq` of a status.
abbrev pub same_status : ServerStatus → ServerStatus → Bool
same_status idle idle = true
same_status (listening a) (listening b) = bytes_eq a b
same_status (pairing a) (pairing b) = bytes_eq a b
same_status (connected a) (connected b) = bytes_eq a b
same_status (active a) (active b) = bytes_eq a b
same_status _ _ = false

-- `MenubarIvars`, with what stands on the items: the titles, which of the four items of the pairing
-- block are hidden, and the codes of the alerts raised so far.
pub record Menubar : Type 0 where
  pub current_pairing_code : Option (List ℕ)
  pub alert_shown : Bool
  pub last_rendered : Option ServerStatus
  pub button_title : List ℕ
  pub status_title : List ℕ
  pub code_title : List ℕ
  pub label_hidden : Bool
  pub code_hidden : Bool
  pub copy_hidden : Bool
  pub separator_hidden : Bool
  pub alerts : List (List ℕ)

-- Before the first tick. The code item has six blanks.
abbrev pub new : List ℕ → Menubar
new starting_title = record {
  current_pairing_code = none;
  alert_shown = false;
  last_rendered = none;
  button_title = [];
  status_title = starting_title;
  code_title = 32 ∷ 32 ∷ 32 ∷ 32 ∷ 32 ∷ 32 ∷ [];
  label_hidden = true;
  code_hidden = true;
  copy_hidden = true;
  separator_hidden = true;
  alerts = [];
}

-- The nudge at the end of `show_pairing_block`.
abbrev pub raise_once : List ℕ → Bool → Menubar → Menubar
raise_once code true m = m
raise_once code false m = record m { alert_shown = true; alerts = m.alerts ++ code ∷ [] }

unfoldable pub show_pairing_block : List ℕ → Menubar → Menubar
show_pairing_block code m = raise_once code m.alert_shown (record m {
  current_pairing_code = some code;
  code_title = 32 ∷ 32 ∷ code;
  label_hidden = false;
  code_hidden = false;
  copy_hidden = false;
  separator_hidden = false;
})

unfoldable pub hide_pairing_block : Menubar → Menubar
hide_pairing_block m = record m {
  current_pairing_code = none;
  alert_shown = false;
  label_hidden = true;
  code_hidden = true;
  copy_hidden = true;
  separator_hidden = true;
}

abbrev pub pairing_block : ServerStatus → Menubar → Menubar
pairing_block (pairing code) m = show_pairing_block code m
pairing_block _ m = hide_pairing_block m

unfoldable pub render : ServerStatus → Menubar → Menubar
render status m =
    let texts = format_status status in
    pairing_block status (record m {
      button_title = texts.0 ++ kmwarp_suffix;
      status_title = status_prefix ++ texts.1;
    })

abbrev pub is_rendered : Option ServerStatus → ServerStatus → Bool
is_rendered none latest = false
is_rendered (some last) latest = same_status last latest

-- `refresh_if_changed`, given the value of the watch channel.
unfoldable pub refresh_if_changed : ServerStatus → Menubar → Menubar
refresh_if_changed latest m =
    if is_rendered m.last_rendered latest
    then m
    else render latest (record m { last_rendered = some latest })

-- What "Copy code" writes to the pasteboard.
abbrev pub copy_code : Menubar → Option (List ℕ)
copy_code m = m.current_pairing_code

-- The first refresh and the ticks of the timer, with the status each of them sees.
unfoldable pub ticks : List ServerStatus → Menubar → Menubar
ticks [] m = m
ticks (status ∷ seen) m = ticks seen (refresh_if_changed status m)
