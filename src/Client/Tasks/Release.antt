-- ===== src/Client/Tasks/Release.antt =====
-- No key stays down on the driven machine, whatever the tasks of the session do and whichever exits.
use kmwarp.Base.{ℕ, ◌≡◌, refl, ◌∙◌, ℤ, Bool, true, false, Option, none, some, List, [], ◌∷◌}
use kmwarp.Channel.{Sender}
use kmwarp.Client.{ClientStatus, InjectorGuard}
use kmwarp.Client.Pump.{drop_session}
use kmwarp.Client.Pump.Release.{Tracks, injector_loop-Tracks, drop_guard-Tracks, Tracks-nil}
use kmwarp.Hid.{WinScancode}
use kmwarp.Hid.Lookup.{hid_to_windows_scancode}
use kmwarp.Inject.{win32_calls}
use kmwarp.Inject.Keys.{scancode_is_down, win32_calls-key_is_down}
use kmwarp.Client.Tasks.{Event, Tasks, step, until_exit, run_session_tasks, new_tasks}
use kmwarp.Client.Tasks.Runs.{tick-guard, until_exit_keeps}

-- The guard tracks its sink.
GuardTracks : InjectorGuard → Type 0
GuardTracks g = Tracks g.held g.sink

module _ {Q : Type 0} (tx : Sender Q) (is_closed : Q → Bool) (hash : List ℕ → List ℕ)
    (write_ok : List ℕ → Bool) (safe_warp_x : ℤ) (peer_addr : List ℕ) where
  step-GuardTracks :
      {E : Type 0} (e : Event E) (t : Tasks Q)
      → GuardTracks t.watcher.session.guard
      → GuardTracks
          (step tx is_closed hash write_ok safe_warp_x peer_addr e t).0.watcher.session.guard
  unfolding step GuardTracks
  step-GuardTracks (Event.frame r) t h =
      injector_loop-Tracks tx hash write_ok peer_addr (r ∷ []) t.watcher.session h
  step-GuardTracks (Event.position p) t h = rw (tick-guard tx safe_warp_x peer_addr p t.watcher) h
  step-GuardTracks (Event.local_change text) t h = h
  step-GuardTracks Event.listener_closed t h = h
  step-GuardTracks Event.beat t h = h
  step-GuardTracks Event.silence t h = h
  step-GuardTracks Event.panic t h = h
  step-GuardTracks (Event.encoder_ended true) t h = h
  step-GuardTracks (Event.encoder_ended false) t h = h

  -- In whatever order the tasks of a session run, and whichever of them exits first: once the others
  -- are aborted, Windows has seen the scancode of every usage released, and the echo guard is clear.
  pub run_session_tasks-win32_calls :
      {E : Type 0} (events : List (Event E)) (q : Q) (status : Option ClientStatus) (hid : ℕ)
      (sc : WinScancode)
      → hid_to_windows_scancode hid ≡ some sc
      → let ended =
          (run_session_tasks tx is_closed hash write_ok safe_warp_x peer_addr events q status).0 in
        (scancode_is_down sc false (win32_calls ended.guard.sink) ≡ false)
        × (ended.guard.echo_guard.last_remote_hash ≡ none)
  unfolding run_session_tasks GuardTracks drop_session
  run_session_tasks-win32_calls events q status hid sc w =
      let last =
        until_exit tx is_closed hash write_ok safe_warp_x peer_addr events (new_tasks q status) in
      let tracks =
        until_exit_keeps tx is_closed hash write_ok safe_warp_x peer_addr
          (λ t. GuardTracks t.watcher.session.guard) (step-GuardTracks) events (new_tasks q status)
          Tracks-nil in
      (
        win32_calls-key_is_down hid sc false _ w
            ∙ drop_guard-Tracks last.0.watcher.session.guard hid tracks,
        refl,
      )
