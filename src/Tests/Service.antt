-- ===== src/Tests/Service.antt =====
-- Runs of the Windows service at concrete calls of the system, of the menu of the server,
-- and of the clipboard of Windows.
use kmwarp.Base.{
  ◌+◌, ℕ, zero, suc, ◌≤◌, ◌≡◌, refl, Bool, true, false, List, [], ◌∷◌, none, some, arith,
}
use kmwarp.Service.Helper.{
  process, World, start, System, Event, main_runs, control, handler_runs, waiting, finished, ready,
  stop, launch, run, step, main_step, handler_step, event_handler, take_helper,
}
use kmwarp.Service.Helper.Handles.{leak, opened, closed, TerminatesOpen}
use kmwarp.Service.Helper.Closed.{run-closed}
use kmwarp.Service.Helper.Ending.{rounds}
use kmwarp.Service.Helper.Stop.{stop_ends}
use kmwarp.Service.Helper.Lost.{turns, Waits, stop_lost}
use kmwarp.Server.{ServerStatus, idle, pairing, connected}
use kmwarp.Service.Menubar.{new, ticks}
use kmwarp.Service.Menubar.Shown.{Shows, last_seen, first_codes, ticks-Shows}
use kmwarp.Client.WinClipboard.{
  Utf16, Win32, Clip, read_clipboard_text, write_clipboard_text, write_clipboard_text_locked,
  try_open,
}
use kmwarp.Client.WinClipboard.Texts.{read-write}

abbrev healthy : System
healthy = record {
  registers = true;
  sets_running = true;
  has_session = true;
  gets_token = true;
  duplicates = true;
  makes_environment = true;
  knows_exe = true;
  creates = true;
  sets_stopped = true;
  wait_returns = false;
  raw = 7;
}

abbrev until_launched : List Event
until_launched = main_runs ∷ main_runs ∷ []

-- The handler takes the process while the service waits.
abbrev stopped_run : List Event
stopped_run =
    main_runs
    ∷ main_runs
    ∷ main_runs
    ∷ control stop
    ∷ handler_runs true
    ∷ main_runs
    ∷ handler_runs true
    ∷ main_runs
    ∷ main_runs
    ∷ main_runs
    ∷ []

run-closed_example :
    (opened process (run healthy stopped_run start).log
      ≡ closed process (run healthy stopped_run start).log + leak healthy process)
    × (opened process (run healthy stopped_run start).log ≤ 1)
    × TerminatesOpen (run healthy stopped_run start).log
unfolding run step main_step handler_step event_handler take_helper launch
run-closed_example = run-closed healthy stopped_run process (omega arith) refl refl

abbrev waiting_world : World
waiting_world = record start { main = waiting; slot = some 7; alive = true }

abbrev six : List Bool
six = true ∷ true ∷ false ∷ false ∷ true ∷ false ∷ []

stop_ends_example :
    ((run healthy (control stop ∷ handler_runs true ∷ main_runs ∷ rounds six) waiting_world).main
      ≡ finished)
    × ((run healthy
          (control stop ∷ handler_runs true ∷ main_runs ∷ rounds six)
          waiting_world).handler
        ≡ ready)
    × ((run healthy (control stop ∷ handler_runs true ∷ main_runs ∷ rounds six) waiting_world).alive
        ≡ false)
stop_ends_example =
    stop_ends healthy waiting_world six (omega arith) refl refl refl refl refl (omega arith)

stop_lost_example :
    Waits (run healthy (control stop ∷ turns six) (run healthy until_launched start)).main
    × ((run healthy (control stop ∷ turns six) (run healthy until_launched start)).alive ≡ true)
unfolding run step main_step launch
stop_lost_example = stop_lost healthy until_launched six (omega arith) refl refl refl

abbrev seen_statuses : List ServerStatus
seen_statuses = pairing (49 ∷ []) ∷ pairing (49 ∷ []) ∷ connected [] ∷ pairing (50 ∷ []) ∷ []

ticks-Shows_example :
    Shows (last_seen idle seen_statuses) (ticks (idle ∷ seen_statuses) (new []))
    × ((ticks (idle ∷ seen_statuses) (new [])).alerts ≡ first_codes false (idle ∷ seen_statuses))
ticks-Shows_example = ticks-Shows [] idle seen_statuses

-- A coding of ASCII, whose units are its bytes.
abbrev ascii : Utf16
ascii = record { encode_utf16 = λ text. text; from_utf16_lossy = λ units. units }

-- The clipboard opens at the second attempt.
abbrev second_attempt : ℕ → Bool
second_attempt zero = false
second_attempt (suc _) = true

abbrev working : Win32
working = record {
  opens = second_attempt;
  empties = true;
  allocates = true;
  locks = true;
  sets = true;
  padding = 0xfe ∷ 1 ∷ [];
}

abbrev empty_clip : Clip
empty_clip = record { is_open = false; block = none; owned = 0 }

read-write_example :
    ((read_clipboard_text ascii working
        (write_clipboard_text ascii working (104 ∷ 105 ∷ []) empty_clip).1).0
      ≡ some (104 ∷ 105 ∷ []))
    × ((write_clipboard_text ascii working (104 ∷ 105 ∷ []) empty_clip).1.is_open ≡ false)
    × ((write_clipboard_text ascii working (104 ∷ 105 ∷ []) empty_clip).1.owned ≡ 0)
unfolding write_clipboard_text write_clipboard_text_locked try_open
read-write_example =
    read-write ascii working working (104 ∷ 105 ∷ []) empty_clip
      (omega arith, (omega arith, omega arith)) refl refl refl refl
