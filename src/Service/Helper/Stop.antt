-- ===== src/Service/Helper/Stop.antt =====
-- A stop of the service that finds the process in the slot.
use mathlib.Core.Path.{subst}
use kmwarp.Base.{
  ℕ, zero, suc, ◌≤◌, ◌<◌, ◌≡◌, refl, sym, ap, ◌∙◌, Bool, true, false, List, ◌∷◌, Option, none, some,
  arith, length,
}
use kmwarp.Service.Helper.{
  await, process_closed, terminates, deliver_control, waiting, finished, ready, taken, terminated,
  World, raw_of, System, main_step, stop, take_helper, event_handler, handler_step, main_runs,
  control, handler_runs, deliver_control, step, run,
}
use kmwarp.Service.Helper.Ending.{rounds, Ends, rounds-Ends, nothing_left}

taken_up :
    (slot : Option ℕ) (w : World)
    → 0 < raw_of slot
    → take_helper slot w ≡ record w { slot = some 0; handler = taken (raw_of slot) }
unfolding take_helper
taken_up none w lt = absurd (omega arith)
taken_up (some zero) w lt = absurd (omega arith)
taken_up (some (suc raw)) w lt = refl

-- The termination, and the return of the wait.
abbrev ended_wait : System → World → World
ended_wait o w = let v = handler_step true w.handler w in main_step o v.main v

stop-Ends :
    (o : System) (w : World)
    → 0 < raw_of w.slot
    → w.main ≡ waiting
    → w.handler ≡ ready
    → process_closed w.log ≡ false
    → Ends 4 (ended_wait o (deliver_control stop w.handler w))
unfolding handler_step main_step event_handler
stop-Ends o w r m d shut =
    let raw = raw_of w.slot in
    let u = record w {
      slot = some 0;
      handler = terminated raw;
      log = terminates ∷ w.log;
      alive = false;
    } in
    let woke : Ends 4 (await o (process_closed w.log) u) =
      subst (λ b. Ends 4 (await o b u)) (sym shut)
        (record { is_late = refl; doomed = refl; left = omega arith }) in
    let at_wait : Ends 4 (main_step o w.main u) =
      subst (λ at. Ends 4 (main_step o at u)) (sym m) woke in
    subst (λ v. Ends 4 (ended_wait o v))
      (sym (ap (λ h. deliver_control stop h w) d ∙ taken_up w.slot w r)) at_wait

-- A stop that arrives while the service waits and the slot holds the process, where the wait returns
-- after the termination and before the handler closes the process's handle, ends both in four more
-- rounds, whichever thread runs first in each: the service has finished, the handler has returned and
-- the process has ended. It holds when the termination and the last report succeed.
pub stop_ends :
    (o : System) (w : World) (bs : List Bool)
    → 0 < o.raw
    → o.sets_stopped ≡ true
    → w.main ≡ waiting
    → w.handler ≡ ready
    → w.slot ≡ some o.raw
    → process_closed w.log ≡ false
    → 4 ≤ length bs
    → ((run o (control stop ∷ handler_runs true ∷ main_runs ∷ rounds bs) w).main ≡ finished)
      × ((run o (control stop ∷ handler_runs true ∷ main_runs ∷ rounds bs) w).handler ≡ ready)
      × ((run o (control stop ∷ handler_runs true ∷ main_runs ∷ rounds bs) w).alive ≡ false)
unfolding run step event_handler
stop_ends o w bs r p m d s shut le =
    let held = subst (λ x. 0 < raw_of x) (sym s) r in
    nothing_left _ _ _ (
      rounds-Ends o 4 bs (ended_wait o (deliver_control stop w.handler w)) p le
        (stop-Ends o w held m d shut))
