-- ===== src/Service/Helper/Lost.antt =====
-- A stop of the service that comes before the process is in the slot.
use mathlib.Core.Path.{subst}
use kmwarp.Base.{
  ◌≤◌, ℕ, zero, suc, ◌≤◌, ◌<◌, ◌≡◌, refl, sym, ◌∙◌, Bool, true, false, List, [], ◌∷◌, Option, none,
  some, arith, if_keeps, ◌⊎◌, inl, inr,
}
use kmwarp.Service.Helper.{
  await, process_closed, Call, opens, closes, terminates, user_token, primary_token, env_block,
  thread, process, MainAt, launched, waiting, ready, World, start, raw_of, System, main_step, stop,
  take_helper, event_handler, handler_step, Event, main_runs, control, handler_runs,
  deliver_control, step, run,
}
use kmwarp.Service.Helper.Handles.{closed, Balanced, nonzero}
use kmwarp.Service.Helper.Ending.{ne}
use kmwarp.Service.Helper.Closed.{run-Sound, start-Sound}

-- The two threads without further events: `true` is a step of the service, `false` of the handler.
abbrev pub turns : List Bool → List Event
turns [] = []
turns (true ∷ bs) = main_runs ∷ turns bs
turns (false ∷ bs) = handler_runs true ∷ turns bs

-- Before the store, or in the wait for a living process.
abbrev pub Waits : MainAt → Type 0
Waits m = (m ≡ launched) ⊎ (m ≡ waiting)

record Steady (w : World) : Type 0 where
  waits : Waits w.main
  idle : w.handler ≡ ready
  living : w.alive ≡ true
  not_closed : process_closed w.log ≡ false

main_step-Steady : (o : System) (w : World) → Steady w → Steady (main_step o w.main w)
unfolding main_step
main_step-Steady o w s = elim s.waits [
  | inl m ↦
      subst (λ at. Steady (main_step o at w)) (sym m)
        (record { waits = inr refl; idle = s.idle; living = s.living; not_closed = s.not_closed })
  | inr m ↦
      subst (λ at. Steady (main_step o at w)) (sym m)
        (subst (λ b. Steady (await o b w)) (sym s.not_closed)
          (if_keeps (λ v. Steady v) w.alive _ _
            (λ _. record {
              waits = s.waits;
              idle = s.idle;
              living = s.living;
              not_closed = s.not_closed;
            })
            (λ dead. absurd (ne (sym s.living ∙ dead)))))
]

handler_step-Steady : (w : World) → Steady w → Steady (handler_step true w.handler w)
unfolding handler_step
handler_step-Steady w s =
    subst (λ h. Steady (handler_step true h w)) (sym s.idle)
      (record { waits = s.waits; idle = s.idle; living = s.living; not_closed = s.not_closed })

turns-Steady : (o : System) (bs : List Bool) (w : World) → Steady w → Steady (run o (turns bs) w)
unfolding run step
turns-Steady o [] w s = s
turns-Steady o (true ∷ bs) w s = turns-Steady o bs (main_step o w.main w) (main_step-Steady o w s)
turns-Steady o (false ∷ bs) w s =
    turns-Steady o bs (handler_step true w.handler w) (handler_step-Steady w s)

empty_slot :
    (slot : Option ℕ) (w : World)
    → nonzero (raw_of slot) ≤ 0
    → Steady w
    → Steady (take_helper slot w)
unfolding take_helper
empty_slot none w le s = s
empty_slot (some zero) w le s = record {
  waits = s.waits;
  idle = s.idle;
  living = s.living;
  not_closed = s.not_closed;
}
empty_slot (some (suc _)) w le s = absurd (omega arith)

never_closed : (log : List Call) → closed process log ≤ 0 → process_closed log ≡ false
never_closed [] le = refl
never_closed (opens _ ∷ log) le = never_closed log (omega arith)
never_closed (terminates ∷ log) le = never_closed log (omega arith)
never_closed (closes process ∷ log) le = absurd (omega arith)
never_closed (closes thread ∷ log) le = never_closed log (omega arith)
never_closed (closes user_token ∷ log) le = never_closed log (omega arith)
never_closed (closes primary_token ∷ log) le = never_closed log (omega arith)
never_closed (closes env_block ∷ log) le = never_closed log (omega arith)

-- A stop that comes after the launch and before the store of the process is lost: however the two
-- threads go on, the service stays in its wait and the process goes on living.
pub stop_lost :
    (o : System) (es : List Event) (bs : List Bool)
    → 0 < o.raw
    → (run o es start).main ≡ launched
    → (run o es start).handler ≡ ready
    → (run o es start).alive ≡ true
    → Waits (run o (control stop ∷ turns bs) (run o es start)).main
      × ((run o (control stop ∷ turns bs) (run o es start)).alive ≡ true)
unfolding run step event_handler
stop_lost o es bs r m d a =
    let w = run o es start in
    let a' =
      subst (λ x. Balanced o process x w.handler w.slot w.log) m
        ((run-Sound o es start r (start-Sound o)).accounts process) in
    let lost = empty_slot w.slot w a'.slot_held (record {
      waits = inl m;
      idle = d;
      living = a;
      not_closed = never_closed w.log (let b = a'.balance in let c = a'.once in omega arith);
    }) in
    let end =
      turns-Steady o bs (deliver_control stop w.handler w)
        (subst (λ h. Steady (deliver_control stop h w)) (sym d) lost) in
    (end.waits, end.living)
