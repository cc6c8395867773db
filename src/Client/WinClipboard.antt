-- ===== src/Client/WinClipboard.antt =====
-- crates/client/src/platform/windows/clipboard.rs: reading and writing the clipboard of Windows. What the
-- calls of the system return is an argument; a text is the bytes of its UTF-8, and its UTF-16 the
-- library's.
pub mod Texts
use kmwarp.Base.{
  ℕ, zero, suc, ◌+◌, ◌-◌, Bool, true, false, List, [], ◌∷◌, ◌++◌, Option, none, some, if◌then◌else◌,
}

-- `encode_utf16` and `from_utf16_lossy`.
pub record Utf16 : Type 0 where
  pub encode_utf16 : List ℕ → List ℕ
  pub from_utf16_lossy : List ℕ → List ℕ

-- Which calls succeed: the attempt to open with each number, and the others in the order of the code.
-- `padding` is what a block of memory holds beyond the size that was asked for.
pub record Win32 : Type 0 where
  pub opens : ℕ → Bool
  pub empties : Bool
  pub allocates : Bool
  pub locks : Bool
  pub sets : Bool
  pub padding : List ℕ

-- The clipboard: whether this process has it open, its block of UTF-16 units, and how many blocks
-- this process owns.
pub record Clip : Type 0 where
  pub is_open : Bool
  pub block : Option (List ℕ)
  pub owned : ℕ

-- Where a write fails.
pub data ClipboardError : Type 0 where
  open_failed empty_failed alloc_failed lock_failed set_failed : ClipboardError

abbrev pub open_retries : ℕ
open_retries = 3

-- `open_clipboard_with_retry`: the attempts that are left, and the number of the next one.
unfoldable pub try_open : Win32 → ℕ → ℕ → Bool
try_open o zero attempt = false
try_open o (suc left) attempt = if o.opens attempt then true else try_open o left (suc attempt)

abbrev pub open_clipboard_with_retry : Win32 → Bool
open_clipboard_with_retry o = try_open o open_retries 0

-- The walk to the terminating NUL, within the block.
abbrev pub until_nul : List ℕ → List ℕ
until_nul [] = []
until_nul (zero ∷ units) = []
until_nul (suc u ∷ units) = suc u ∷ until_nul units

unfoldable pub read_clipboard_text_locked : Utf16 → Win32 → Option (List ℕ) → Option (List ℕ)
read_clipboard_text_locked utf o none = none
read_clipboard_text_locked utf o (some units) =
    if o.locks then some (utf.from_utf16_lossy (until_nul units)) else none

abbrev pub opened : Clip → Clip
opened c = record c { is_open = true }

abbrev pub close_clipboard : Clip → Clip
close_clipboard c = record c { is_open = false }

unfoldable pub read_clipboard_text : Utf16 → Win32 → Clip → Option (List ℕ) × Clip
read_clipboard_text utf o c =
    if open_clipboard_with_retry o
    then (read_clipboard_text_locked utf o (opened c).block, close_clipboard (opened c))
    else (none, c)

-- After the block has been locked: the copy, and the handing over to the system or the release.
abbrev pub set_data : Win32 → List ℕ → Clip → Option ClipboardError × Clip
set_data o wide c =
    if o.sets
    then (none, record c { block = some (wide ++ o.padding); owned = c.owned - 1 })
    else (some set_failed, record c { owned = c.owned - 1 })

unfoldable pub write_clipboard_text_locked :
    Utf16 → Win32 → List ℕ → Clip → Option ClipboardError × Clip
write_clipboard_text_locked utf o text c =
    if o.empties
    then (if o.allocates
        then (if o.locks
            then set_data o (utf.encode_utf16 text ++ 0 ∷ [])
                (record c { block = none; owned = suc c.owned })
            else (some lock_failed, record c { block = none; owned = suc c.owned }))
        else (some alloc_failed, record c { block = none }))
    else (some empty_failed, c)

-- `none` is success.
unfoldable pub write_clipboard_text : Utf16 → Win32 → List ℕ → Clip → Option ClipboardError × Clip
write_clipboard_text utf o text c =
    if open_clipboard_with_retry o
    then (let r = write_clipboard_text_locked utf o text (opened c) in (r.0, close_clipboard r.1))
    else (some open_failed, c)
