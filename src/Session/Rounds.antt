-- ===== src/Session/Rounds.antt =====
-- `run_client` of crates/client/src/app.rs and the accept loop of `run_server` of
-- crates/server/src/app.rs, one peer after the other. What a session publishes before it begins is left
-- out, and so are the tasks of the server.
pub mod Impostors
use kmwarp.Base.{ℕ, ℤ, Bool, true, false, List, [], ◌∷◌, ◌++◌, Option, none, some, Result, ok, err}
use kmwarp.Wire.{Message}
use kmwarp.Wire.Connection.{FrameReader, FrameWriter}
use kmwarp.Channel.{Sender}
use kmwarp.Pairing.{Crypto}
use kmwarp.Pairing.Pins.{Hex, Disk}
use kmwarp.Pairing.Flow.{World}
use kmwarp.Client.{ClientStatus, publish}
use kmwarp.Client
use kmwarp.Client.Tasks.{Event, run_session_tasks}
use kmwarp.Server.{ServerStatus, publish_status}
use kmwarp.Session.{Tls, Outcome, begun, closed, handshake_rejected, run_one_session, handle_peer}
use kmwarp.Session.Backoff.{connect_with_backoff}

-- What one turn of the client's loop meets: the ends of its attempts to connect, TLS with the server,
-- what the code provider returns, whether a sink can be built, the two halves of the connection, a new
-- outbound channel, and what makes the tasks run.
pub record Turn (Q E : Type 0) : Type 0 where
  pub attempts : List Bool
  pub tls : Tls
  pub provider : Option (List ℕ)
  pub has_sink : Bool
  pub reader : FrameReader
  pub writer : FrameWriter
  pub tx_out : Q
  pub events : List (Event E)

-- The client between two turns: its disk, its status, and the sessions that have ended.
pub record ClientRun (Q : Type 0) : Type 0 where
  pub disk : Disk
  pub status : Option ClientStatus
  pub sessions : List (Client.Session Q)

-- What the server's loop meets at an `accept` that succeeds.
pub record Peer : Type 0 where
  pub tls : Tls
  pub entropy : Option (List ℕ)
  pub shown : Bool
  pub reader : FrameReader
  pub writer : FrameWriter

-- The server between two peers: its disk, its status, and how each peer's connection ended, or that its
-- session began.
pub record ServerRun : Type 0 where
  pub disk : Disk
  pub status : Option ServerStatus
  pub outcomes : List Outcome

module _ (c : Crypto) (hex : Hex) (cert_der : List ℕ) where
  module _ {Q : Type 0} (tx : Sender Q) (is_closed : Q → Bool) (hash : List ℕ → List ℕ)
      (write_ok : List ℕ → Bool) (safe_warp_x : ℤ) (connect peer_name : List ℕ) where
    -- A session that begins runs its tasks until it ends; a refusal ends the client.
    abbrev pub after_session :
        {E : Type 0}
        → Turn Q E
        → ClientRun Q
        → Outcome × World
        → (ClientRun Q → ClientRun Q × Option Outcome)
        → ClientRun Q × Option Outcome
    after_session turn run (begun, w) more =
        let ended =
          (run_session_tasks tx is_closed hash write_ok safe_warp_x connect turn.events turn.tx_out
            (publish (ClientStatus.connected connect) run.status)).0 in
        more
          (record { disk = w.disk; status = ended.status; sessions = run.sessions ++ (ended ∷ []) })
    after_session turn run (handshake_rejected, w) more = (
      record run { disk = w.disk; status = publish ClientStatus.idle run.status },
      some handshake_rejected,
    )
    after_session turn run (other, w) more = more (record run { disk = w.disk })

    abbrev pub once_connected :
        Option ℕ
        → (Unit {0} → ClientRun Q × Option Outcome)
        → ClientRun Q
        → ClientRun Q × Option Outcome
    once_connected none more run = (run, none)
    once_connected (some attempt) more run = more tt

    -- Over the turns so far; `none` is a client that still runs.
    unfoldable pub run_client :
        {E : Type 0} → List (Turn Q E) → ClientRun Q → ClientRun Q × Option Outcome
    run_client [] run = (run, none)
    run_client (turn ∷ turns) run =
        let dialing = record run {
          status = publish (ClientStatus.connecting connect) run.status;
        } in
        once_connected (connect_with_backoff turn.attempts).0
          (λ _.
            after_session turn dialing
              (run_one_session c hex turn.tls turn.provider turn.has_sink cert_der peer_name
                (record { reader = turn.reader; writer = turn.writer; disk = run.disk }))
              (λ r. run_client turns r))
          dialing

  -- The server over the peers that its loop accepts, listening again after each.
  unfoldable pub run_server :
      (local_addr : List ℕ) (width height : ℕ) → List Peer → ServerRun → ServerRun
  run_server local_addr width height [] run = run
  run_server local_addr width height (peer ∷ peers) run =
      let (out, w) =
        handle_peer c hex peer.tls peer.entropy peer.shown cert_der width height
          (record { reader = peer.reader; writer = peer.writer; disk = run.disk }) in
      run_server local_addr width height peers (record {
        disk = w.disk;
        status = publish_status run.status (ServerStatus.listening local_addr);
        outcomes = run.outcomes ++ (out ∷ []);
      })
