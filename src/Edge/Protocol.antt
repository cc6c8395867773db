-- ===== src/Edge/Protocol.antt =====
-- The machine over every sequence of inputs, against an abstract contract: an automaton over the
-- actions that says what an executor may rely on.
use kmwarp.Base.{
  ℕ, ◌≡◌, refl, Bool, true, false, List, [], ◌∷◌, ◌++◌, Option, none, some, arith, ◌∙◌, not, ◌&&◌,
  Option-cases, inl, inr,
}
use kmwarp.Platform.{SourceEvent}
use kmwarp.Wire.{Message}
use kmwarp.Edge.{
  State, local_active, remote_active, StateMachine, EdgeConfig, Action, on_local_event,
  on_wire_message, new, send_take_control, send_release_control, warp_local_cursor,
  hide_local_cursor, show_local_cursor, start_swallow, stop_swallow, send_message,
}

-- What reaches the machine: an event of the local source, or a message of the peer.
pub data Input : Type 0 where
  local : SourceEvent → Input
  wire : Message → Input

unfoldable pub step : StateMachine → Input → ℕ → StateMachine × List Action
step sm (local ev) now = on_local_event sm ev now
step sm (wire msg) now = on_wire_message sm msg now

-- The machine after a sequence of inputs with their times, and all actions in order.
unfoldable pub run : StateMachine → List (Input × ℕ) → StateMachine × List Action
run sm [] = (sm, [])
run sm ((i, now) ∷ is) =
    let rest = run (step sm i now).0 is in (rest.0, (step sm i now).1 ++ rest.1)

-- The three switches that the actions work: whether the peer was told to take control, whether the
-- local cursor is hidden, and whether local input is swallowed.
pub record Desk : Type 0 where
  pub taken : Bool
  pub hidden : Bool
  pub swallowing : Bool

abbrev pub desk : Bool → Desk
desk b = record { taken = b; hidden = b; swallowing = b }

abbrev when : Bool → Desk → Option Desk
when true d = some d
when false d = none

-- One action under the contract, `none` being a breach: control is taken when it is not; the cursor
-- is warped while it is shown; input is forwarded when control is taken and local input swallowed;
-- swallowing stops when it is on, and with it the control ends.
abbrev pub perform : Action → Desk → Option Desk
perform (send_take_control y) d = when (not d.taken) (record d { taken = true })
perform (send_release_control y) d = none
perform (warp_local_cursor x y) d = when (not d.hidden) d
perform hide_local_cursor d = when (not d.hidden) (record d { hidden = true })
perform show_local_cursor d = when d.hidden (record d { hidden = false })
perform start_swallow d = when (not d.swallowing) (record d { swallowing = true })
perform stop_swallow d = when d.swallowing (record d { taken = false; swallowing = false })
perform (send_message m) d = when (d.taken && d.swallowing) d

abbrev pub perform_all : List Action → Desk → Option Desk
perform_all [] d = some d
perform_all (a ∷ acts) d = elim (perform a d) [ some d' ↦ perform_all acts d' | none ↦ none ]

abbrev pub is_remote : State → Bool
is_remote local_active = false
is_remote remote_active = true

-- The desk that a state stands for.
abbrev pub desk_of : StateMachine → Desk
desk_of sm = desk (is_remote sm.state)

perform_all-append :
    (acts bs : List Action) (d d' : Desk)
    → perform_all acts d ≡ some d'
    → perform_all (acts ++ bs) d ≡ perform_all bs d'
perform_all-append [] bs d d' h = ground arith
perform_all-append (a ∷ acts) bs d d' h = elim (Option-cases (perform a d)) [
  | inl stop ↦ cc (rw (stop, perform_all) at h)
  | inr (d2, go) ↦
      rw (go, perform_all) (perform_all-append acts bs d2 d' (rw (go, perform_all) at h))
]

-- Each step keeps the contract and ends at the desk of the new state.
perform_all-step :
    (sm : StateMachine) (i : Input) (now : ℕ)
    → perform_all (step sm i now).1 (desk_of sm) ≡ some (desk_of (step sm i now).0)
unfolding step on_local_event on_wire_message
perform_all-step sm (local (SourceEvent.cursor_at x y)) now = ground arith
perform_all-step sm (local (SourceEvent.key h s m)) now = ground arith
perform_all-step sm (local ev) now = ground arith
perform_all-step sm (wire (Message.release_control y)) now = ground arith
perform_all-step sm (wire m) now = ground arith

perform_all-run_from :
    (sm : StateMachine) (is : List (Input × ℕ))
    → perform_all (run sm is).1 (desk_of sm) ≡ some (desk_of (run sm is).0)
unfolding run
perform_all-run_from sm [] = refl
perform_all-run_from sm ((i, now) ∷ is) =
    perform_all-append (step sm i now).1 (run (step sm i now).0 is).1 (desk_of sm) _
      (perform_all-step sm i now)
    ∙ perform_all-run_from (step sm i now).0 is

-- Over every sequence of inputs the actions of a new machine keep the contract, and at the end
-- control, cursor and swallowing stand where the state says.
pub perform_all-run :
    (cfg : EdgeConfig) (is : List (Input × ℕ))
    → let (sm, actions) = run (new cfg) is in
      perform_all actions (desk false) ≡ some (desk (is_remote sm.state))
unfolding new
perform_all-run cfg is = perform_all-run_from (new cfg) is
