-- ===== src/Service/Helper/Handles.antt =====
-- The handles of the service: every handle has one owner, whatever the order of the two threads.
use mathlib.Core.Path.{subst}
use kmwarp.Base.{
  Bool, false, not, ℕ, zero, suc, ◌+◌, ◌≤◌, ◌<◌, ◌≡◌, refl, sym, true, ◌&&◌, List, [], ◌∷◌, Option,
  none, some, if◌then◌else◌, ◌==◌, arith, if_keeps,
}
use kmwarp.Service.Helper.{
  unreported, await, process_closed, Handle, user_token, primary_token, env_block, process, thread,
  Call, opens, closes, terminates, System, launch, MainAt, starting, launching, launched, waiting,
  woken, swapped, stopping, finished, failed, HandlerAt, ready, taken, terminated, World, raw_of,
  close_leftover, after_launch, main_step,
}

abbrev pub tag : Handle → ℕ
tag user_token = 0
tag primary_token = 1
tag env_block = 2
tag process = 3
tag thread = 4

abbrev pub same : Handle → Handle → ℕ
same a b = if tag a == tag b then 1 else 0

-- How often a handle was opened, and closed.
abbrev pub opened : Handle → List Call → ℕ
opened h [] = 0
opened h (opens k ∷ log) = same h k + opened h log
opened h (_ ∷ log) = opened h log

abbrev pub closed : Handle → List Call → ℕ
closed h [] = 0
closed h (closes k ∷ log) = same h k + closed h log
closed h (_ ∷ log) = closed h log

-- The process is open whenever it is terminated.
abbrev pub TerminatesOpen : List Call → Type 0
TerminatesOpen [] = 0 ≤ 0
TerminatesOpen (terminates ∷ log) = (closed process log < opened process log) × TerminatesOpen log
TerminatesOpen (_ ∷ log) = TerminatesOpen log

abbrev pub nonzero : ℕ → ℕ
nonzero zero = 0
nonzero (suc _) = 1

-- The owners of the process's handle: the slot, the handler, the thread of the service.
abbrev pub handler_owns : HandlerAt → ℕ
handler_owns ready = 0
handler_owns (taken _) = 1
handler_owns (terminated _) = 1

-- What counts for the process only.
abbrev pub for_process : Handle → ℕ → ℕ
for_process process n = n
for_process user_token n = 0
for_process primary_token n = 0
for_process env_block n = 0
for_process thread n = 0

abbrev pub main_owns : Handle → MainAt → ℕ
main_owns h starting = 0
main_owns h launching = 0
main_owns h launched = same h process + same h thread
main_owns h waiting = same h thread
main_owns h woken = same h thread
main_owns h (swapped leftover) = for_process h (nonzero leftover) + same h thread
main_owns h stopping = 0
main_owns h finished = 0
main_owns h failed = 0
main_owns h unreported = 0

abbrev pub shared_owns : Handle → Option ℕ → HandlerAt → ℕ
shared_owns h slot handler =
    for_process h (nonzero (raw_of slot)) + for_process h (handler_owns handler)

abbrev pub unopened : MainAt → ℕ
unopened starting = 1
unopened launching = 1
unopened _ = 0

-- Only while the service waits, or is about to swap, may the slot hold a handle.
abbrev pub slot_room : MainAt → ℕ
slot_room waiting = 1
slot_room woken = 1
slot_room _ = 0

abbrev pub left_open : System → ℕ
left_open o =
    if o.has_session && (o.gets_token && (o.duplicates && (o.makes_environment && not o.knows_exe)))
    then 1
    else 0

-- The handles that the code does not close when the path of the program cannot be read.
abbrev pub leak : System → Handle → ℕ
leak o process = 0
leak o thread = 0
leak o user_token = 0
leak o primary_token = left_open o
leak o env_block = left_open o

-- What is lost by then.
abbrev pub leaked : System → Handle → MainAt → ℕ
leaked o h starting = 0
leaked o h launching = 0
leaked o h failed = 0
leaked o h launched = leak o h
leaked o h waiting = leak o h
leaked o h woken = leak o h
leaked o h (swapped _) = leak o h
leaked o h stopping = leak o h
leaked o h finished = leak o h
leaked o h unreported = leak o h

pub record Balanced (o : System) (h : Handle) (main : MainAt) (handler : HandlerAt)
    (slot : Option ℕ) (log : List Call) : Type 0 where
  pub balance :
      opened h log
      ≡ closed h log + (main_owns h main + shared_owns h slot handler) + leaked o h main
  pub once : opened h log + unopened main ≤ 1
  pub slot_held : nonzero (raw_of slot) ≤ slot_room main

abbrev pub Accounts : System → Handle → World → Type 0
Accounts o h w = Balanced o h w.main w.handler w.slot w.log

launch_succeeds :
    (o : System) (h : Handle) (log : List Call)
    → (launch o log).0 ≡ none
    → (opened h (launch o log).1 ≡ suc (opened h log))
      × (closed h (launch o log).1 + (main_owns h launched + leak o h) ≡ suc (closed h log))
unfolding launch
launch_succeeds o user_token log h = ground arith
launch_succeeds o primary_token log h = ground arith
launch_succeeds o env_block log h = ground arith
launch_succeeds o process log h = ground arith
launch_succeeds o thread log h = ground arith

launch_fails :
    (o : System) (h : Handle) (log : List Call) (e : _)
    → (launch o log).0 ≡ some e
    → (opened h (launch o log).1 + closed h log
        ≡ closed h (launch o log).1 + opened h log + leak o h)
      × (opened h (launch o log).1 ≤ suc (opened h log))
unfolding launch
launch_fails o user_token log e h = ground arith
launch_fails o primary_token log e h = ground arith
launch_fails o env_block log e h = ground arith
launch_fails o process log e h = ground arith
launch_fails o thread log e h = ground arith

launch-Accounts :
    (o : System) (h : Handle) (w : World) (r : Option _)
    → (launch o w.log).0 ≡ r
    → Balanced o h launching w.handler w.slot w.log
    → Accounts o h (after_launch r (record w { log = (launch o w.log).1 }))
launch-Accounts o h w none e a = record {
  balance = let l = launch_succeeds o h w.log e in let b = a.balance in omega arith;
  once = let l = launch_succeeds o h w.log e in let b = a.once in omega arith;
  slot_held = a.slot_held;
}
launch-Accounts o h w (some err) e a = record {
  balance = let l = launch_fails o h w.log err e in let b = a.balance in omega arith;
  once = let l = launch_fails o h w.log err e in let b = a.once in omega arith;
  slot_held = a.slot_held;
}

stay :
    (o : System) (h : Handle) (at : MainAt) (w : World)
    → w.main ≡ at
    → Balanced o h at w.handler w.slot w.log
    → Accounts o h w
stay o h at w e a = subst (λ m. Balanced o h m w.handler w.slot w.log) (sym e) a

pub for_process_none : (h : Handle) (n : ℕ) → n ≤ 0 → for_process h n ≡ 0
for_process_none h n le = ground arith

pub for_process_one : (h : Handle) (n : ℕ) → 0 < n → for_process h (nonzero n) ≡ same h process
for_process_one h n lt = ground arith

close_leftover-counts :
    (h : Handle) (leftover : ℕ) (log : List Call)
    → (opened h (close_leftover leftover log) ≡ opened h log)
      × (closed h (close_leftover leftover log) ≡ for_process h (nonzero leftover) + closed h log)
close_leftover-counts h zero log = ground arith
close_leftover-counts h (suc n) log = ground arith

await-Accounts :
    (o : System) (h : Handle) (shut : Bool) (w : World)
    → w.main ≡ waiting
    → Balanced o h waiting w.handler w.slot w.log
    → Accounts o h (await o shut w)
await-Accounts o h true w e a =
    if_keeps (λ v. Accounts o h v) o.wait_returns _ _
      (λ _. record { balance = a.balance; once = a.once; slot_held = a.slot_held })
      (λ _. stay o h waiting w e a)
await-Accounts o h false w e a =
    if_keeps (λ v. Accounts o h v) w.alive _ _ (λ _. stay o h waiting w e a)
      (λ _. record { balance = a.balance; once = a.once; slot_held = a.slot_held })

pub main_step-Accounts :
    (o : System) (h : Handle) (at : MainAt) (w : World)
    → 0 < o.raw
    → w.main ≡ at
    → Balanced o h at w.handler w.slot w.log
    → Accounts o h (main_step o at w)
unfolding main_step
main_step-Accounts o h starting w r e a =
    if_keeps (λ v. Accounts o h v) (o.registers && o.sets_running) _ _
      (λ _. record { balance = a.balance; once = a.once; slot_held = a.slot_held })
      (λ _. record {
        balance = a.balance;
        once = let b = a.once in omega arith;
        slot_held = a.slot_held;
      })
main_step-Accounts o h launching w r e a = launch-Accounts o h w _ refl a
main_step-Accounts o h launched w r e a = record {
  balance =
      let f = for_process_none h _ a.slot_held in
      let g = for_process_one h o.raw r in let b = a.balance in omega arith;
  once = a.once;
  slot_held = ground arith;
}
main_step-Accounts o h waiting w r e a = await-Accounts o h (process_closed w.log) w e a
main_step-Accounts o h woken w r e a = record {
  balance = let f = for_process_none h 0 (omega arith) in let b = a.balance in omega arith;
  once = a.once;
  slot_held = omega arith;
}
main_step-Accounts o h (swapped leftover) w r e a = record {
  balance = let c = close_leftover-counts h leftover w.log in let b = a.balance in omega arith;
  once = let c = close_leftover-counts h leftover w.log in let b = a.once in omega arith;
  slot_held = a.slot_held;
}
main_step-Accounts o h stopping w r e a =
    if_keeps (λ v. Accounts o h v) o.sets_stopped _ _
      (λ _. record { balance = a.balance; once = a.once; slot_held = a.slot_held })
      (λ _. record { balance = a.balance; once = a.once; slot_held = a.slot_held })
main_step-Accounts o h finished w r e a = stay o h finished w e a
main_step-Accounts o h failed w r e a = stay o h failed w e a
main_step-Accounts o h unreported w r e a = stay o h unreported w e a
