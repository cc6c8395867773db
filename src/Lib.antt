-- ===== src/Lib.antt =====
-- kmwarp shares one keyboard and mouse between a Mac, the server, and a Windows machine, the client.
-- The server decides at the right screen edge which machine its input drives, and sends input as
-- messages over one connection; the client replays them and hands control back at its left edge. The
-- clipboard is shared both ways.
--
-- The parts, and the files that model them:
--   * Platform, Platform/ModMask (crates/core/src/platform.rs): key states, buttons, events of the
--     source, the modifier mask. A sink is the list of the calls made on it.
--   * Wire, Wire/MsgType, Wire/Encode, Wire/Decode (crates/core/src/wire/mod.rs, codec.rs): messages,
--     `encode_frame` as a step on the buffer, `decode_frame` as a function from the buffer to its
--     outcome and the buffer after it. Wire/Frame says what a frame is; Wire/RoundTrip and Wire/Stream
--     relate both to it.
--   * Wire/Convert (crates/core/src/wire/convert.rs): events to messages, messages to sink calls.
--   * Wire/Connection (crates/server/src/net/connection.rs, crates/client/src/net/connection.rs, and
--     `encoder_loop` of both net/pump.rs): frames over a byte stream. The socket is outside: a reader
--     has the list of what its reads will return, a writer the number of writes that will succeed.
--   * StuckKeys (crates/core/src/stuck_keys.rs): the keys that are down at the destination.
--   * Modmap (crates/core/src/modmap.rs) and Hid (crates/core/src/hid): the translation of keys.
--   * Edge (crates/core/src/edge/mod.rs): the state machine, its clock an argument. Edge/Protocol has
--     the contract that an executor of its actions relies on.
--   * Clipboard (crates/core/src/clipboard.rs): frames of at most 4 KiB, their reassembly, the guard
--     against echoes over a hash that is a parameter.
--   * Channel: the interface of the outbound channel, with one law: what a send reports is what the
--     channel took. Both sessions take any channel.
--   * Client, Client/Pump, Client/ClipboardOut, Client/Watch (crates/client/src/net/pump.rs,
--     crates/client/src/platform/windows/cursor_watch.rs): the session of the driven machine. One
--     record holds what its tasks share; `dispatch_one` and `tick` are functions on it.
--   * Client/Tasks (`run_session_tasks` of crates/client/src/app.rs): one session as a sequence of
--     events of its tasks, in any order the scheduler may choose, until the first task ends. An event is
--     a whole round of its task; in the source the others may run between two stores of one round, as
--     between the flag and the status after a TakeControl, which is not modelled.
--   * Inject (crates/client/src/platform/windows/inject.rs): the calls of Windows that each call on the
--     sink makes; Inject/Keys and Inject/Wheel read them the way the system does.
--   * Server, Server/Brain, Server/Disconnect (crates/server/src/app.rs): `edge_brain_task` with
--     `execute_action`, and `drain_held_on_disconnect`, given the outcomes of its timed sends.
--     Server/Tasks has the reader of the session, the heartbeats and the deadline; the last two are the
--     same in crates/client/src/app.rs. Server/Peer puts the tasks of `handle_peer` together, in any
--     order of their events, up to the drain, during which the others go on, and the abort at its end.
--   * Server/ClipSync (the clipboard tasks of crates/server/src/app.rs and
--     crates/server/src/platform/macos/clipboard.rs): the polls of the pasteboard, the channel
--     behind them and the writes, in steps of their own, where the pasteboard itself is a parameter.
--   * Tap, Tap/EventType, Tap/Event (crates/server/src/platform/macos/tap.rs): the callback of the
--     event tap as a function on its state, over a record of what it reads of an event. Its bitmap
--     uses nine bits, and facts about it are checked for all 512 values.
--   * Pairing, Pairing/Text, Pairing/Codes, Pairing/Flow (crates/core/src/pairing/mod.rs and both
--     net/pairing.rs): the pairing code and the two flows, as steps on the connection and the disk
--     of a side that may fail. Pairing/Flow/Safety bounds what a flow stores whatever the peer sends;
--     Pairing/Flow/Honest runs both sides against each other.
--   * Pairing/Pins (crates/core/src/tls/pin.rs): the pin file, its temporary file and the failures of
--     the calls on them.
--   * Session (`handle_peer` of crates/server/src/app.rs, `run_one_session` and `connect_with_backoff`
--     of crates/client/src/app.rs, crates/core/src/tls/verifier.rs, both tls.rs): from a connection to
--     the start of the tasks. The setting of TCP_NODELAY before it is left out. Session/Rounds
--     has the loops around it: the reconnects of `run_client` and the accept loop of `run_server`, with
--     its peers one after another. Session/Identity (crates/core/src/tls/cert.rs and the start of both
--     runners) loads or makes the certificate and key of a machine; what a generator makes is an
--     argument.
--   * Client/WinClipboard (crates/client/src/platform/windows/clipboard.rs): opening, reading and
--     writing the clipboard of Windows, over the outcomes of the calls of the system.
--   * Service/Helper (crates/client/src/service/windows_service.rs): the thread of the Windows service
--     and the handler of its controls, as steps in any order on what they share. Service/Menubar
--     (crates/server/src/service/menubar.rs): the state of the menu and the titles of its items.
--   * Base: tests, lists, integers and bytes that the parts share. Tests: concrete inputs.
--
-- Numbers are natural numbers; an `i16` or an `i32` is an integer, with the casts and the saturating
-- operations of the source written out, and `IsTyped` says that a message's fields have their types.
-- Loops over inputs are recursions on the list of the inputs. Fuel stands in two places: `chunks` has
-- the length of the text, and each round takes at least one byte; `read_all` has one round for each
-- message and one for the end of the stream, and the theorems show that this is enough.
--
-- The channel, the hash of the echo guard, the success of a clipboard write, the positions that the
-- system reports and the geometry of the displays are parameters. So are the libraries: `Crypto` for
-- SPAKE2, HMAC and SHA-256, with no law but those that a theorem takes as hypotheses, `Hex` for the hex
-- encoding, with its round trip, and `Tls` for rustls, which asks the verifier. Random bytes, the code
-- that the operator types, the display of a code and the outcomes of file operations are arguments.
--
-- Not modelled are the making of a certificate by rcgen, the configuration, discovery, the installation
-- of the event tap, the injection on macOS, the dialogs, the tray and the installation of services, what
-- is published for them during pairing and the start of a session, and the logging: calls of the
-- operating system and of libraries, without decisions of the program's own.
pub mod Base
pub mod Pairing
pub mod Platform
pub mod Wire
pub mod StuckKeys
pub mod Tap
pub mod Modmap
pub mod Edge
pub mod Clipboard
pub mod Hid
pub mod Inject
pub mod Channel
pub mod Client
pub mod Server
pub mod Session
pub mod Service
pub mod Tests
