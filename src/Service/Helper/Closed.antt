-- ===== src/Service/Helper/Closed.antt =====
-- What the service has opened and closed, over the events of both of its threads.
use mathlib.Core.Path.{subst}
use kmwarp.Base.{
  ◌+◌, ◌≤◌, false, ℕ, zero, suc, ◌≤◌, ◌<◌, ◌≡◌, refl, Bool, true, List, [], ◌∷◌, Option, none, some,
  arith,
}
use kmwarp.Service.Helper.{
  await, process_closed, unreported, Handle, process, Call, closes, terminates, System, launch,
  MainAt, starting, launching, launched, waiting, woken, swapped, stopping, finished, failed,
  HandlerAt, ready, taken, terminated, World, start, close_leftover, after_launch, main_step,
  ServiceControl, stop, shutdown, interrogate, other, take_helper, event_handler, handler_step,
  Event, main_runs, control, handler_runs, helper_exits, deliver_control, step, run,
}
use kmwarp.Service.Helper.Handles.{
  leak, opened, closed, TerminatesOpen, Balanced, Accounts, main_step-Accounts, for_process_none,
  for_process_one,
}

-- The accounts of every handle, and no use of a closed one.
pub record Sound (o : System) (w : World) : Type 0 where
  pub accounts : (h : Handle) → Accounts o h w
  pub uses : TerminatesOpen w.log

launch-TerminatesOpen :
    (o : System) (log : List Call) → TerminatesOpen log → TerminatesOpen (launch o log).1
unfolding launch
launch-TerminatesOpen o log t = ground arith

after_launch-uses :
    (r : Option _) (w : World) → TerminatesOpen w.log → TerminatesOpen (after_launch r w).log
after_launch-uses none w t = t
after_launch-uses (some e) w t = t

close_leftover-uses :
    (leftover : ℕ) (log : List Call)
    → TerminatesOpen log
    → TerminatesOpen (close_leftover leftover log)
close_leftover-uses zero log t = t
close_leftover-uses (suc n) log t = t

await-uses :
    (o : System) (shut : Bool) (w : World)
    → TerminatesOpen w.log
    → TerminatesOpen (await o shut w).log
await-uses o true w t = ground arith
await-uses o false w t = ground arith

main_step-uses :
    (o : System) (at : MainAt) (w : World)
    → TerminatesOpen w.log
    → TerminatesOpen (main_step o at w).log
unfolding main_step
main_step-uses o starting w t = ground arith
main_step-uses o launching w t =
    after_launch-uses (launch o w.log).0 (record w { log = (launch o w.log).1 })
      (launch-TerminatesOpen o w.log t)
main_step-uses o launched w t = t
main_step-uses o waiting w t = await-uses o (process_closed w.log) w t
main_step-uses o woken w t = t
main_step-uses o (swapped leftover) w t = close_leftover-uses leftover w.log t
main_step-uses o stopping w t = ground arith
main_step-uses o finished w t = t
main_step-uses o failed w t = t
main_step-uses o unreported w t = t

module _ (o : System) where
  taken-Balanced :
      (h : Handle) (m : MainAt) (raw : ℕ) (log : List Call)
      → Balanced o h m ready (some (suc raw)) log
      → Balanced o h m (taken (suc raw)) (some 0) log
  taken-Balanced h m raw log a = record {
    balance = let b = a.balance in omega arith;
    once = a.once;
    slot_held = omega arith;
  }

  terminated-Balanced :
      (h : Handle) (m : MainAt) (raw : ℕ) (slot : Option ℕ) (log : List Call)
      → Balanced o h m (taken raw) slot log
      → Balanced o h m (terminated raw) slot (terminates ∷ log)
  terminated-Balanced h m raw slot log a = record {
    balance = a.balance;
    once = a.once;
    slot_held = a.slot_held;
  }

  closed-Balanced :
      (h : Handle) (m : MainAt) (raw : ℕ) (slot : Option ℕ) (log : List Call)
      → Balanced o h m (terminated raw) slot log
      → Balanced o h m ready slot (closes process ∷ log)
  closed-Balanced h m raw slot log a = record {
    balance =
        let f = for_process_none h 0 (omega arith) in
        let g = for_process_one h 1 (omega arith) in let b = a.balance in omega arith;
    once = a.once;
    slot_held = a.slot_held;
  }

  taken-open :
      (m : MainAt) (raw : ℕ) (slot : Option ℕ) (log : List Call)
      → Balanced o process m (taken raw) slot log
      → closed process log < opened process log
  taken-open m raw slot log a = let b = a.balance in omega arith

  take_helper-Sound :
      (slot : Option ℕ) (w : World)
      → w.slot ≡ slot
      → w.handler ≡ ready
      → Sound o w
      → Sound o (take_helper slot w)
  unfolding take_helper
  take_helper-Sound none w e r s = s
  take_helper-Sound (some zero) w e r s = record {
    accounts = λ h. subst (λ x. Balanced o h w.main w.handler x w.log) e (s.accounts h);
    uses = s.uses;
  }
  take_helper-Sound (some (suc raw)) w e r s = record {
    accounts = λ h. taken-Balanced h w.main raw w.log (
        subst (λ x. Balanced o h w.main x (some (suc raw)) w.log) r
          (subst (λ x. Balanced o h w.main w.handler x w.log) e (s.accounts h)));
    uses = s.uses;
  }

  deliver_control-Sound :
      (c : ServiceControl) (at : HandlerAt) (w : World)
      → w.handler ≡ at
      → Sound o w
      → Sound o (deliver_control c at w)
  unfolding event_handler
  deliver_control-Sound stop ready w r s = take_helper-Sound w.slot w refl r s
  deliver_control-Sound shutdown ready w r s = take_helper-Sound w.slot w refl r s
  deliver_control-Sound interrogate ready w r s = s
  deliver_control-Sound other ready w r s = s
  deliver_control-Sound c (taken raw) w r s = s
  deliver_control-Sound c (terminated raw) w r s = s

  handler_step-Sound :
      (ok : Bool) (at : HandlerAt) (w : World)
      → w.handler ≡ at
      → Sound o w
      → Sound o (handler_step ok at w)
  unfolding handler_step
  handler_step-Sound ok ready w e s = s
  handler_step-Sound ok (taken raw) w e s = record {
    accounts = λ h.
        terminated-Balanced h w.main raw w.slot w.log
          (subst (λ x. Balanced o h w.main x w.slot w.log) e (s.accounts h));
    uses = (
      taken-open w.main raw w.slot w.log
          (subst (λ x. Balanced o process w.main x w.slot w.log) e (s.accounts process)),
      s.uses,
    );
  }
  handler_step-Sound ok (terminated raw) w e s = record {
    accounts = λ h.
        closed-Balanced h w.main raw w.slot w.log
          (subst (λ x. Balanced o h w.main x w.slot w.log) e (s.accounts h));
    uses = s.uses;
  }

step-Sound : (o : System) (e : Event) (w : World) → 0 < o.raw → Sound o w → Sound o (step o e w)
unfolding step
step-Sound o main_runs w r s = record {
  accounts = λ h. main_step-Accounts o h w.main w r refl (s.accounts h);
  uses = main_step-uses o w.main w s.uses;
}
step-Sound o (control c) w r s = deliver_control-Sound o c w.handler w refl s
step-Sound o (handler_runs ok) w r s = handler_step-Sound o ok w.handler w refl s
step-Sound o helper_exits w r s = record { accounts = λ h. s.accounts h; uses = s.uses }

pub run-Sound :
    (o : System) (es : List Event) (w : World) → 0 < o.raw → Sound o w → Sound o (run o es w)
unfolding run
run-Sound o [] w r s = s
run-Sound o (e ∷ es) w r s = run-Sound o es (step o e w) r (step-Sound o e w r s)

start-Accounts : (o : System) (h : Handle) → Accounts o h start
start-Accounts o h = record {
  balance = ground arith;
  once = ground arith;
  slot_held = ground arith;
}

pub start-Sound : (o : System) → Sound o start
start-Sound o = record { accounts = start-Accounts o; uses = ground arith }

-- Whatever the order of the events: when the service has reported its end and the handler has
-- returned, every handle that was opened has been closed, but the environment block and the primary
-- token when the path of the program could not be read. None was opened or closed more than once, and
-- the process was terminated only while its handle was open.
pub run-closed :
    (o : System) (es : List Event) (h : Handle)
    → 0 < o.raw
    → (run o es start).main ≡ finished
    → (run o es start).handler ≡ ready
    → (opened h (run o es start).log ≡ closed h (run o es start).log + leak o h)
      × (opened h (run o es start).log ≤ 1)
      × TerminatesOpen (run o es start).log
run-closed o es h r m d =
    let s = run-Sound o es start r (start-Sound o) in
    let w = run o es start in
    let a =
      subst (λ x. Balanced o h finished x w.slot w.log) d
        (subst (λ x. Balanced o h x w.handler w.slot w.log) m (s.accounts h)) in
    let f = for_process_none h _ a.slot_held in
    let g = for_process_none h 0 (omega arith) in
    let b = a.balance in let c = a.once in (omega arith, omega arith, s.uses)
