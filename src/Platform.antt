-- ===== src/Platform.antt =====
-- crates/core/src/platform.rs: keys, buttons, the modifier mask, and the events of the platform
-- layers.
pub mod ModMask
use kmwarp.Base.{ℕ, ℤ}

pub data KeyState : Type 0 where
  up down : KeyState

pub data MouseButton : Type 0 where
  left right middle x1 x2 : MouseButton

-- `CursorAt` never goes on the wire.
pub data SourceEvent : Type 0 where
  mouse_rel : ℤ → ℤ → SourceEvent
  mouse_button : MouseButton → KeyState → SourceEvent
  mouse_wheel : ℤ → ℤ → SourceEvent
  key : ℕ → KeyState → ModMask.ModMask → SourceEvent
  cursor_at : ℤ → ℤ → SourceEvent

-- A call on an `InputSink`; a sink is the list of the calls that were made on it, which Inject reads
-- the way the sink of Windows does.
pub data SinkCall : Type 0 where
  inject_mouse_rel : ℤ → ℤ → SinkCall
  inject_mouse_button : MouseButton → KeyState → SinkCall
  inject_mouse_wheel : ℤ → ℤ → SinkCall
  inject_key : ℕ → KeyState → ModMask.ModMask → SinkCall
  warp_cursor_abs : ℤ → ℤ → SinkCall
  hide_cursor : SinkCall
  show_cursor : SinkCall
