-- ===== src/Service/Helper.antt =====
-- crates/client/src/service/windows_service.rs: `run_service_inner` with
-- `spawn_user_session_helper_and_wait`, on the thread of the service, and `event_handler` with
-- `terminate_helper_if_running`, on a thread of the system. They share one atomic slot. What the calls
-- of the system return is an argument.

pub mod Handles
pub mod Closed
pub mod Ending
pub mod Stop
pub mod Lost
use kmwarp.Base.{
  ℕ, zero, suc, Bool, true, false, ◌&&◌, List, [], ◌∷◌, Option, none, some, if◌then◌else◌,
}

-- What is opened and has to be closed or freed.
pub data Handle : Type 0 where
  user_token primary_token env_block process thread : Handle

pub data Call : Type 0 where
  opens : Handle → Call
  closes : Handle → Call
  terminates : Call

pub data ServiceError : Type 0 where
  io win32 no_active_session : ServiceError

-- Which calls of the system succeed, in the order of the code; whether a wait returns whose handle is
-- closed under it; and the bits of the process's handle.
pub record System : Type 0 where
  pub registers : Bool
  pub sets_running : Bool
  pub has_session : Bool
  pub gets_token : Bool
  pub duplicates : Bool
  pub makes_environment : Bool
  pub knows_exe : Bool
  pub creates : Bool
  pub sets_stopped : Bool
  pub wait_returns : Bool
  pub raw : ℕ

-- The calls, the last one first.
abbrev pub then_calls : List Call → List Call → List Call
then_calls [] log = log
then_calls (c ∷ cs) log = then_calls cs (c ∷ log)

-- `spawn_user_session_helper_and_wait` up to the launch: `none` is success.
unfoldable pub launch : System → List Call → Option ServiceError × List Call
launch o log =
    if o.has_session
    then (if o.gets_token
        then (if o.duplicates
            then (if o.makes_environment
                then (if o.knows_exe
                    then (if o.creates
                        then (
                          none,
                          then_calls
                              (opens user_token
                                ∷ opens primary_token
                                ∷ closes user_token
                                ∷ opens env_block
                                ∷ opens process
                                ∷ opens thread
                                ∷ closes env_block
                                ∷ closes primary_token
                                ∷ [])
                              log,
                        )
                        else (
                          some ServiceError.win32,
                          then_calls
                              (opens user_token
                                ∷ opens primary_token
                                ∷ closes user_token
                                ∷ opens env_block
                                ∷ closes env_block
                                ∷ closes primary_token
                                ∷ [])
                              log,
                        ))
                    else (
                      some ServiceError.io,
                      then_calls
                          (opens user_token
                            ∷ opens primary_token
                            ∷ closes user_token
                            ∷ opens env_block
                            ∷ [])
                          log,
                    ))
                else (
                  some ServiceError.win32,
                  then_calls
                      (opens user_token
                        ∷ opens primary_token
                        ∷ closes user_token
                        ∷ closes primary_token
                        ∷ [])
                      log,
                ))
            else (
              some ServiceError.win32,
              then_calls (opens user_token ∷ closes user_token ∷ []) log,
            ))
        else (some ServiceError.win32, log))
    else (some ServiceError.no_active_session, log)

-- Where the thread of the service stands: before the registration, before the launch, before the store
-- into the slot, in the wait, before the swap, with what the swap returned, before the last report; and
-- where a report has failed, the first or the last.
pub data MainAt : Type 0 where
  starting launching launched waiting woken stopping finished failed unreported : MainAt
  swapped : ℕ → MainAt

-- Where the handler stands: between events, with a handle to terminate, with one to close.
pub data HandlerAt : Type 0 where
  ready : HandlerAt
  taken terminated : ℕ → HandlerAt

pub data ServiceState : Type 0 where
  running stopped : ServiceState

-- `slot` is `none` until `get_or_init`.
pub record World : Type 0 where
  pub main : MainAt
  pub handler : HandlerAt
  pub slot : Option ℕ
  pub alive : Bool
  pub log : List Call
  pub states : List ServiceState

abbrev pub start : World
start = record {
  main = starting;
  handler = ready;
  slot = none;
  alive = false;
  log = [];
  states = [];
}

abbrev pub raw_of : Option ℕ → ℕ
raw_of none = 0
raw_of (some raw) = raw

abbrev pub close_leftover : ℕ → List Call → List Call
close_leftover zero log = log
close_leftover (suc _) log = closes process ∷ log

abbrev pub after_launch : Option ServiceError → World → World
after_launch none w = record w { main = launched; alive = true }
after_launch (some e) w = record w { main = stopping }

-- The two reports of `run_service_inner`; a failure ends it.
abbrev pub report : Bool → MainAt → MainAt → ServiceState → World → World
report ok next failing state w =
    if ok then record w { main = next; states = state ∷ w.states } else record w { main = failing }

-- Whether the process's handle has been closed.
abbrev pub process_closed : List Call → Bool
process_closed [] = false
process_closed (closes process ∷ log) = true
process_closed (_ ∷ log) = process_closed log

-- The wait returns when the process has ended; what it does once its handle is closed, the system
-- leaves open.
abbrev pub await : System → Bool → World → World
await o true w = if o.wait_returns then record w { main = woken } else w
await o false w = if w.alive then w else record w { main = woken }

-- One step of the thread of the service.
unfoldable pub main_step : System → MainAt → World → World
main_step o starting w = report (o.registers && o.sets_running) launching failed running w
main_step o launching w = let r = launch o w.log in after_launch r.0 (record w { log = r.1 })
main_step o launched w = record w { main = waiting; slot = some o.raw }
main_step o waiting w = await o (process_closed w.log) w
main_step o woken w = record w { main = swapped (raw_of w.slot); slot = some 0 }
main_step o (swapped leftover) w = record w {
  main = stopping;
  log = closes thread ∷ close_leftover leftover w.log;
}
main_step o stopping w = report o.sets_stopped finished unreported stopped w
main_step o finished w = w
main_step o failed w = w
main_step o unreported w = w

pub data ServiceControl : Type 0 where
  stop shutdown interrogate other : ServiceControl

pub data HandlerResult : Type 0 where
  no_error not_implemented : HandlerResult

-- `terminate_helper_if_running` up to the swap.
unfoldable pub take_helper : Option ℕ → World → World
take_helper none w = w
take_helper (some zero) w = record w { slot = some 0 }
take_helper (some (suc raw)) w = record w { slot = some 0; handler = taken (suc raw) }

-- `event_handler` when a control event arrives.
unfoldable pub event_handler : ServiceControl → World → HandlerResult × World
event_handler stop w = (no_error, take_helper w.slot w)
event_handler shutdown w = (no_error, take_helper w.slot w)
event_handler interrogate w = (no_error, w)
event_handler other w = (not_implemented, w)

-- The rest of `terminate_helper_if_running`, whose first call may fail.
unfoldable pub handler_step : Bool → HandlerAt → World → World
handler_step ok ready w = w
handler_step ok (taken raw) w = record w {
  handler = terminated raw;
  log = terminates ∷ w.log;
  alive = if ok then false else w.alive;
}
handler_step ok (terminated raw) w = record w { handler = ready; log = closes process ∷ w.log }

pub data Event : Type 0 where
  main_runs : Event
  control : ServiceControl → Event
  handler_runs : (can_terminate : Bool) → Event
  helper_exits : Event

-- The system calls the handler again only after it has returned.
abbrev pub deliver_control : ServiceControl → HandlerAt → World → World
deliver_control c ready w = (event_handler c w).1
deliver_control c (taken _) w = w
deliver_control c (terminated _) w = w

unfoldable pub step : System → Event → World → World
step o main_runs w = main_step o w.main w
step o (control c) w = deliver_control c w.handler w
step o (handler_runs can_terminate) w = handler_step can_terminate w.handler w
step o helper_exits w = record w { alive = false }

unfoldable pub run : System → List Event → World → World
run o [] w = w
run o (e ∷ es) w = run o es (step o e w)
