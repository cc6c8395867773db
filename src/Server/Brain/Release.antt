-- ===== src/Server/Brain/Release.antt =====
-- The brain over every sequence of inputs: what it tracks is what the peer has down, and when the
-- input is local again, nothing is.
use kmwarp.Base.{
  ℕ, ◌≡◌, refl, sym, ap, ◌∙◌, Bool, true, false, not, Option, List, [], ◌∷◌, arith, ℤ,
}
use kmwarp.StuckKeys.{new, is_held, contains_key, drain}
use kmwarp.Modmap.{ModRemap}
use kmwarp.Wire.{Message}
use kmwarp.Edge.{
  Action, State, StateMachine, EdgeConfig, send_take_control, send_release_control,
  warp_local_cursor, hide_local_cursor, show_local_cursor, start_swallow, stop_swallow,
  send_message,
}
use kmwarp.Edge
use kmwarp.Edge.Protocol.{Input, step, is_remote}
use kmwarp.Channel.{Sender, sent}
use kmwarp.Server.{BrainState, ServerStatus}
use kmwarp.Server.Brain.{
  drain_held_to_peer, execute_action, rewrite_action, rewrite_input, execute_all, brain_round,
  edge_brain_task,
}
use kmwarp.Server.Brain.Keys.{
  wire_is_down, swallow_after, clean_after, step-swallow, step-clean, Keeps, execute_all-Keeps,
}

module _ {Q : Type 0} (tx : Sender Q) (mod_remap : ModRemap) (remote : List ℕ)
    (display_right_at : ℤ → ℤ → Option ℤ) (global_right : ℤ) where
  -- The actions set the swallow flag and nothing else of the machine.
  execute_all-swallow :
      (actions : List Action) (b : BrainState Q)
      → ((execute_all tx mod_remap remote display_right_at global_right actions b).swallow
          ≡ swallow_after actions b.swallow)
        × ((execute_all tx mod_remap remote display_right_at global_right actions b).sm ≡ b.sm)
  unfolding execute_all execute_action rewrite_action drain_held_to_peer
  execute_all-swallow [] b = (refl, refl)
  execute_all-swallow (start_swallow ∷ actions) b = execute_all-swallow actions _
  execute_all-swallow (stop_swallow ∷ actions) b = execute_all-swallow actions _
  execute_all-swallow (a ∷ actions) b = execute_all-swallow actions _

  execute_all-clean :
      (actions : List Action) (b : BrainState Q) (c : Bool)
      → (c ≡ true → b.held.keys ≡ [])
      → clean_after actions c ≡ true
      → (execute_all tx mod_remap remote display_right_at global_right actions b).held.keys ≡ []
  unfolding execute_all execute_action rewrite_action drain_held_to_peer drain
  execute_all-clean [] b c empty h = empty h
  execute_all-clean (start_swallow ∷ actions) b c empty h =
      execute_all-clean actions _ true (λ _. refl) h
  execute_all-clean (stop_swallow ∷ actions) b c empty h =
      execute_all-clean actions _ true (λ _. refl) h
  execute_all-clean (send_message m ∷ actions) b c empty h =
      execute_all-clean actions _ false (λ e. absurd (ground arith)) h
  execute_all-clean (a ∷ actions) b c empty h = execute_all-clean actions _ c empty h

  -- The flag is the state of the machine, and in `LocalActive` nothing is held.
  unfoldable pub Settled : BrainState Q → Type 0
  Settled b = (b.swallow ≡ is_remote b.sm.state) × (is_remote b.sm.state ≡ false → b.held.keys ≡ [])

  pub brain_round-Settled :
      (i : Input) (now : ℕ) (b : BrainState Q)
      → Settled b
      → Settled (brain_round tx mod_remap remote display_right_at global_right i now b)
  unfolding Settled brain_round
  brain_round-Settled i now b (flag, empty) =
      let r =
        rewrite_input tx mod_remap remote display_right_at global_right i b.home_display_right in
      let moved = step b.sm r.0 now in
      let begun : BrainState Q = record b { sm = moved.0; home_display_right = r.1 } in
      let done = execute_all-swallow moved.1 begun in
      let state = ap (λ sm. is_remote sm.state) done.1 in
      (
        done.0 ∙ ap (swallow_after moved.1) flag ∙ step-swallow b.sm r.0 now ∙ sym state,
        λ off.
            execute_all-clean moved.1 begun (not (is_remote b.sm.state)) (λ e. empty (ground arith))
              (step-clean b.sm r.0 now (sym state ∙ off)),
      )

  edge_brain_task-Settled :
      (inputs : List (Input × ℕ)) (b : BrainState Q)
      → Settled b
      → Settled (edge_brain_task tx mod_remap remote display_right_at global_right inputs b)
  unfolding edge_brain_task
  edge_brain_task-Settled [] b st = st
  edge_brain_task-Settled ((i, now) ∷ inputs) b st =
      edge_brain_task-Settled inputs
        (brain_round tx mod_remap remote display_right_at global_right i now b)
        (brain_round-Settled i now b st)

  -- The task as it starts.
  abbrev pub brain_start : EdgeConfig → Q → Option ServerStatus → BrainState Q
  brain_start cfg q status = record {
    sm = Edge.new cfg;
    swallow = false;
    held = new;
    tx_out = q;
    sink = [];
    status = status;
    home_display_right = global_right;
  }

  pub start-Settled :
      (cfg : EdgeConfig) (q : Q) (status : Option ServerStatus) → Settled (brain_start cfg q status)
  unfolding Settled Edge.new
  start-Settled cfg q status = (refl, λ e. refl)

  module _ (free : (msg : Message) (q : Q) → (tx.try_send msg q).0 ≡ sent) where
    pub edge_brain_task-Keeps :
        (inputs : List (Input × ℕ)) (b : BrainState Q)
        → Keeps b.held (tx.accepted b.tx_out)
        → let ended = edge_brain_task tx mod_remap remote display_right_at global_right inputs b in
          Keeps ended.held (tx.accepted ended.tx_out)
    unfolding edge_brain_task brain_round
    edge_brain_task-Keeps [] b k = k
    edge_brain_task-Keeps ((i, now) ∷ inputs) b k =
        let r =
          rewrite_input tx mod_remap remote display_right_at global_right i b.home_display_right in
        let moved = step b.sm r.0 now in
        let begun : BrainState Q = record b { sm = moved.0; home_display_right = r.1 } in
        edge_brain_task-Keeps inputs
          (brain_round tx mod_remap remote display_right_at global_right i now b)
          (execute_all-Keeps tx mod_remap remote display_right_at global_right free moved.1 begun k)

    module _ (cfg : EdgeConfig) (q : Q) (status : Option ServerStatus)
        (quiet : (j : ℕ) → wire_is_down j false (tx.accepted q) ≡ false) where
      -- On an outbound channel with room, after any inputs of a new brain: local input is swallowed
      -- exactly in `RemoteActive`, and the tracker holds exactly the keys that the messages sent leave
      -- down at the peer, if none was before.
      pub edge_brain_task-is_held :
          (inputs : List (Input × ℕ)) (j : ℕ)
          → let ended =
              edge_brain_task tx mod_remap remote display_right_at global_right inputs
                (brain_start cfg q status) in
            (ended.swallow ≡ is_remote ended.sm.state)
            × (is_held ended.held j ≡ wire_is_down j false (tx.accepted ended.tx_out))
      unfolding Settled Keeps is_held contains_key
      edge_brain_task-is_held inputs j = (
        (edge_brain_task-Settled inputs (brain_start cfg q status) (start-Settled cfg q status)).0,
        (edge_brain_task-Keeps inputs (brain_start cfg q status) (tt, λ i. sym (quiet i))).1 j,
      )

      -- On an outbound channel with room, after any inputs of a new brain that end outside
      -- `RemoteActive`: the messages sent leave no key down at the peer, if none was before.
      pub edge_brain_task_local :
          (inputs : List (Input × ℕ)) (j : ℕ)
          → is_remote
              (edge_brain_task tx mod_remap remote display_right_at global_right inputs
                (brain_start cfg q status)).sm.state
            ≡ false
          → wire_is_down j false (
              tx.accepted
                (edge_brain_task tx mod_remap remote display_right_at global_right inputs
                  (brain_start cfg q status)).tx_out)
            ≡ false
      unfolding Settled is_held contains_key
      edge_brain_task_local inputs j off =
          let settled =
            edge_brain_task-Settled inputs (brain_start cfg q status)
              (start-Settled cfg q status) in
          sym ((edge_brain_task-is_held inputs j).1) ∙ ap (contains_key j) (settled.1 off)
